-- ===== src/SqlClassify/Statements.antt =====
-- `_split_statements`, `_skip_parens` and `_skip_with` of memora/sql_classify.py, on the tokens from a
-- place on in the place of indices.
use memora.Prelude.{
  ℕ, zero, suc, Bool, true, false, not, ◌&&◌, Option, none, some, List, [], ◌∷◌, ◌++◌, nat_eq,
  length, any, if◌then◌else◌, text_beq,
}
use memora.Prelude.Text.{Text, codes}
use memora.SqlClassify.Tokens.{CharTables, TokKind, word, ident, punct, param, Tok}

abbrev pub is_kind_word : TokKind → Bool
is_kind_word word = true
is_kind_word _ = false

abbrev pub is_kind_punct : TokKind → Bool
is_kind_punct punct = true
is_kind_punct _ = false

abbrev pub is_kind_param : TokKind → Bool
is_kind_param param = true
is_kind_param _ = false

abbrev pub is_kind_name : TokKind → Bool
is_kind_name word = true
is_kind_name ident = true
is_kind_name _ = false

abbrev pub is_punct : ℕ → Tok → Bool
is_punct c t = is_kind_punct t.kind && text_beq t.text (c ∷ [])

abbrev pub first_is : (Tok → Bool) → List Tok → Bool
first_is p [] = false
first_is p (t ∷ ts) = p t

-- `_name` of the first token.
abbrev pub name_of : Tok → Option Text
name_of t = if is_kind_name t.kind then some t.text else none

abbrev pub first_name : List Tok → Option Text
first_name [] = none
first_name (t ∷ ts) = name_of t

unfoldable pub drop : ℕ → List Tok → List Tok
drop zero ts = ts
drop (suc n) [] = []
drop (suc n) (t ∷ ts) = drop n ts

-- `_skip_parens`: what stands behind the closing parenthesis; the depth is `opened` less `closed`, and
-- may be negative.
unfoldable pub skip_parens : ℕ → ℕ → List Tok → Option (List Tok)
skip_parens opened closed [] = none
skip_parens opened closed (t ∷ ts) =
    let opened' = if is_punct 40 t then suc opened else opened in
    let closed' = if is_punct 41 t then suc closed else closed in
    let rest = skip_parens opened' closed' ts in
    if is_punct 41 t && nat_eq opened' closed' then some ts else rest

-- The state of `_split_statements`; the depth is `opened` less `closed`.
pub record Splitting : Type 0 where
  pub stmts : List (List Tok)
  pub cur : List Tok
  pub opened : ℕ
  pub closed : ℕ
  pub in_body : Bool
  pub cases : ℕ

abbrev keep_statement : List (List Tok) → List Tok → List (List Tok)
keep_statement stmts [] = stmts
keep_statement stmts (t ∷ ts) = stmts ++ (t ∷ ts) ∷ []

module _ (u : CharTables) where
  -- `_upper`: empty but for a word.
  abbrev pub upper_of : Tok → Text
  upper_of t = if is_kind_word t.kind then u.upper t.text else []

  abbrev pub is_upper : Text → Tok → Bool
  is_upper w t = text_beq (upper_of t) w

  unfoldable pub note_body : Tok → Splitting → Splitting
  note_body t p =
      if is_upper (codes "BEGIN") t
        && (first_is (is_upper (codes "CREATE")) p.cur && any (is_upper (codes "TRIGGER")) p.cur)
      then record p { in_body = true }
      else if is_upper (codes "CASE") t && p.in_body
      then record p { cases = suc p.cases }
      else if is_upper (codes "END") t && p.in_body
      then elim p.cases [ zero ↦ record p { in_body = false } | suc n ↦ record p { cases = n } ]
      else p

  abbrev note_depth : Tok → Splitting → Splitting
  note_depth t p =
      if is_punct 40 t
      then record p { opened = suc p.opened }
      else if is_punct 41 t
      then record p { closed = suc p.closed }
      else p

  unfoldable pub split_token : Tok → Splitting → Splitting
  unfolding note_body
  split_token t p =
      let p' = note_body t (note_depth t p) in
      if is_punct 59 t && (nat_eq p'.opened p'.closed && not p'.in_body)
      then record p' { stmts = keep_statement p'.stmts p'.cur; cur = [] }
      else record p' { cur = p'.cur ++ t ∷ [] }

  unfoldable pub split_tokens : List Tok → Splitting → Splitting
  split_tokens [] p = p
  split_tokens (t ∷ ts) p = split_tokens ts (split_token t p)

  abbrev pub no_statements : Splitting
  no_statements = record {
    stmts = [];
    cur = [];
    opened = 0;
    closed = 0;
    in_body = false;
    cases = 0;
  }

  unfoldable pub split_statements : List Tok → List (List Tok)
  unfolding split_tokens
  split_statements toks = let p = split_tokens toks no_statements in keep_statement p.stmts p.cur

  abbrev pub skip_if : Text → List Tok → List Tok
  skip_if w ts = if first_is (is_upper w) ts then drop 1 ts else ts

  abbrev pub column_list : List Tok → Option (List Tok)
  column_list ts = if first_is (is_punct 40) ts then skip_parens 0 0 ts else some ts

  -- From behind the name of a table expression to behind its body.
  unfoldable pub with_body : Option (List Tok) → Option (List Tok)
  with_body none = none
  with_body (some ts) =
      if not (first_is (is_upper (codes "AS")) ts)
      then none
      else let body = skip_if (codes "MATERIALIZED") (skip_if (codes "NOT") (drop 1 ts)) in
        if first_is (is_punct 40) body then skip_parens 0 0 body else none

  abbrev pub is_some : Option Text → Bool
  is_some none = false
  is_some (some t) = true

  -- The rounds of `_skip_with` that are left, one for each table expression.
  unfoldable pub with_rounds : ℕ → List Tok → Option (List Tok)
  unfolding with_body
  with_rounds zero ts = none
  with_rounds (suc n) ts =
      if not (is_some (first_name ts)) then none else elim (with_body (column_list (drop 1 ts))) [
        | none ↦ none
        | some rest ↦ elim (first_is (is_punct 44) rest) [
          | true ↦ with_rounds n (drop 1 rest)
          | false ↦ some rest
        ]
      ]

  -- `_skip_with`: the main statement behind a WITH prefix; each round takes a token.
  unfoldable pub skip_with : List Tok → Option (List Tok)
  unfolding with_rounds
  skip_with toks = with_rounds (suc (length toks)) (skip_if (codes "RECURSIVE") (drop 1 toks))
