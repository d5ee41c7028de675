-- ===== src/SqlClassify/Effect.antt =====
-- `derive_effect` and `_where_keys` of memora/sql_classify.py; an exception that it catches is `none`.
use memora.Prelude.{
  ℕ, zero, suc, ◌-◌, Bool, true, false, not, ◌&&◌, ◌||◌, Option, none, some, List, [], ◌∷◌, all,
  map, length, ltb, leb, nat_eq, if◌then◌else◌, text_beq, lookup, insert, Text_comparable,
}
use memora.Prelude.Text.{Text, codes}
use memora.SqlClassify.Tokens.{CharTables, Tok, tokenize}
use memora.SqlClassify.Statements.{
  is_kind_param, is_kind_name, is_punct, name_of, drop, is_upper, split_statements, skip_parens,
}
use memora.SqlClassify.Classify.{Classified, is_mutation, classify_statement}

-- PRIMARY_KEYS
abbrev pub primary_keys : List (Text × List Text)
primary_keys =
    (codes "memories", codes "id" ∷ [])
    ∷ (codes "memories_embeddings", codes "memory_id" ∷ [])
    ∷ (codes "memories_crossrefs", codes "memory_id" ∷ [])
    ∷ (codes "tombstones", codes "content_hash" ∷ codes "memory_id" ∷ [])
    ∷ (codes "tombstone_components", codes "memory_id" ∷ [])
    ∷ (codes "memories_actions", codes "id" ∷ [])
    ∷ (codes "memories_meta", codes "key" ∷ [])
    ∷ []

-- The tokens before the first that the test holds of, and those behind it.
unfoldable pub split_at : (Tok → Bool) → List Tok → Option (List Tok × List Tok)
split_at p [] = none
split_at p (t ∷ ts) =
    let rest = split_at p ts in
    if p t then some ([], ts) else elim rest [ none ↦ none | some (a, b) ↦ some (t ∷ a, b) ]

abbrev pub is_mark : Tok → Bool
is_mark t = is_kind_param t.kind && text_beq t.text (63 ∷ [])

unfoldable pub keep_tokens : (Tok → Bool) → List Tok → List Tok
keep_tokens p [] = []
keep_tokens p (t ∷ ts) = let rest = keep_tokens p ts in if p t then t ∷ rest else rest

-- toks[a:b] where the tokens up to b are those that do not stand in the rest.
unfoldable pub take_tokens : ℕ → List Tok → List Tok
take_tokens zero ts = []
take_tokens (suc n) [] = []
take_tokens (suc n) (t ∷ ts) = t ∷ take_tokens n ts

-- What is known of a statement: the keys and the columns afterwards.
pub record Effect {ℓ} (V : Type ℓ) : Type ℓ where
  pub target : Option Text
  pub keys : Option (List (Text × V))
  pub post : Option (List (Text × V))

-- What `col = ?` at three tokens binds: the column, if it is one.
abbrev column_at : Tok → Tok → Tok → Option Text
column_at c e m = if is_punct 61 e && is_mark m then name_of c else none

module _ {ℓ} {V : Type ℓ} where
  -- {k: d[k] for k in pk}, when each is there.
  unfoldable pub select_keys : List Text → List (Text × V) → Option (List (Text × V))
  select_keys [] d = some []
  select_keys (k ∷ pk) d = elim (lookup k d) [
    | none ↦ none
    | some v ↦ elim (select_keys pk d) [ none ↦ none | some rest ↦ some ((k, v) ∷ rest) ]
  ]

  abbrev pub keys_in : Option (List Text) → List (Text × V) → Option (List (Text × V))
  keys_in none d = none
  keys_in (some pk) d = select_keys pk d

  -- dict(zip(cols, params[:len(cols)])), or none if there are too few parameters.
  unfoldable pub bind_columns : List Text → List V → List (Text × V) → Option (List (Text × V))
  bind_columns [] params d = some d
  bind_columns (c ∷ cols) [] d = none
  bind_columns (c ∷ cols) (v ∷ params) d = bind_columns cols params (insert c v d)

  -- The loop of `_where_keys` from a place on; none if the parameters end.
  unfoldable pub conjuncts :
      CharTables → List Tok → List V → List (Text × V) → Option (List (Text × V))
  conjuncts u (c ∷ e ∷ m ∷ []) params keys = elim (column_at c e m) [
    | none ↦ some keys
    | some col ↦ elim params [ [] ↦ none | v ∷ rest ↦ some (insert col v keys) ]
  ]
  conjuncts u (c ∷ e ∷ m ∷ a ∷ more) params keys = elim (column_at c e m) [
    | none ↦ some keys
    | some col ↦ elim params [
      | [] ↦ none
      | v ∷ rest ↦ elim (is_upper u (codes "AND") a) [
        | true ↦ conjuncts u more rest (insert col v keys)
        | false ↦ some (insert col v keys)
      ]
    ]
  ]
  conjuncts u _ params keys = some keys

  abbrev pub where_found : Option (List Text) → Option (List (Text × V)) → Option (List (Text × V))
  where_found pk none = none
  where_found pk (some keys) = keys_in pk keys

  -- `_where_keys`, on the tokens behind WHERE.
  unfoldable pub where_keys :
      CharTables → Option (List Text) → List Tok → List V → Option (List (Text × V))
  unfolding conjuncts
  where_keys u pk toks params = where_found pk (conjuncts u toks params [])

  -- The loop over `SET col = ?, …` with the tokens that are left of it: the columns, and the parameters
  -- that are left.
  unfoldable pub assignments :
      ℕ → List Tok → List V → List (Text × V) → Option (List (Text × V) × List V)
  assignments zero toks params post = some (post, params)
  assignments (suc left) (c ∷ e ∷ m ∷ []) params post = elim (column_at c e m) [
    | none ↦ none
    | some col ↦ elim params [
      | [] ↦ none
      | v ∷ rest ↦ if leb left 2 then some (insert col v post, rest) else none
    ]
  ]
  assignments (suc left) (c ∷ e ∷ m ∷ a ∷ more) params post = elim (column_at c e m) [
    | none ↦ none
    | some col ↦ elim params [
      | [] ↦ none
      | v ∷ rest ↦ elim (ltb 2 left && is_punct 44 a) [
        | true ↦ assignments (left - 3) more rest (insert col v post)
        | false ↦ assignments (left - 2) (a ∷ more) rest (insert col v post)
      ]
    ]
  ]
  assignments (suc left) _ params post = none

module _ (u : CharTables) where
  -- words.index(w)
  unfoldable pub index_of : Text → List Tok → Option ℕ
  index_of w [] = none
  index_of w (t ∷ ts) =
      let rest = index_of w ts in
      if is_upper u w t then some 0 else elim rest [ none ↦ none | some n ↦ some (suc n) ]

  abbrev pub or_length : List Tok → Option ℕ → ℕ
  or_length toks none = length toks
  or_length toks (some w) = w

  -- The columns and the tokens of the values of an INSERT, as many of each, the latter all `?`.
  abbrev between : List Tok → List Tok → List Tok
  between from rest = take_tokens (length from - length rest - 2) (drop 1 from)

  unfoldable pub values_of : List Tok → Option (List Tok)
  values_of from = elim (skip_parens 0 0 from) [
    | none ↦ none
    | some rest ↦ some (keep_tokens (λ t. not (is_punct 44 t)) (between from rest))
  ]

  unfoldable pub columns_of : List Tok → Option (List Text × List Tok)
  columns_of from = elim (skip_parens 0 0 from) [
    | none ↦ none
    | some rest ↦ some (
      map (λ (t : Tok). t.text) (keep_tokens (λ t. is_kind_name t.kind) (between from rest)),
      rest,
    )
  ]

  abbrev pub primary_key_of : Option Text → Option (List Text)
  primary_key_of none = none
  primary_key_of (some t) = lookup (u.lower t) primary_keys

  abbrev pub first_statement : Option (List Tok) → List Tok
  first_statement none = []
  first_statement (some toks) = elim (split_statements u toks) [ [] ↦ [] | s ∷ ss ↦ s ]

  module _ {ℓ} {V : Type ℓ} where
    abbrev pub nothing_known : Option Text → Effect V
    nothing_known target = record { target = target; keys = none; post = none }

    unfoldable pub insert_post : List Text → List V → Option (List Tok) → Option (List (Text × V))
    insert_post cols params none = none
    insert_post cols params (some vals) =
        if nat_eq (length vals) (length cols) && all is_mark vals
        then bind_columns cols params []
        else none

    unfoldable pub insert_effect : Option (List Text) → Option Text → List Tok → List V → Effect V
    unfolding values_of columns_of insert_post
    insert_effect pk target toks params = elim (split_at (is_punct 40) toks) [
      | none ↦ nothing_known target
      | some (before, inside) ↦ elim (columns_of (drop (length before) toks)) [
        | none ↦ nothing_known target
        | some (cols, rest) ↦ elim (split_at (is_upper u (codes "VALUES")) rest) [
          | none ↦ nothing_known target
          | some (skipped, from) ↦ elim (insert_post cols params (values_of from)) [
            | none ↦ nothing_known target
            | some post ↦ record { target = target; keys = keys_in pk post; post = some post }
          ]
        ]
      ]
    ]

    unfoldable pub update_effect : Option (List Text) → Option Text → List Tok → List V → Effect V
    update_effect pk target toks params = elim (index_of (codes "SET") toks) [
      | none ↦ nothing_known target
      | some s ↦
          let w = or_length toks (index_of (codes "WHERE") toks) in
          elim (assignments (w - suc s) (drop (suc s) toks) params []) [
            | none ↦ nothing_known target
            | some (post, rest) ↦ record {
              target = target;
              keys = where_keys u pk (drop (suc w) toks) rest;
              post = some post;
            }
          ]
    ]

    unfoldable pub delete_effect : Option (List Text) → Option Text → List Tok → List V → Effect V
    delete_effect pk target toks params = elim (index_of (codes "WHERE") toks) [
      | none ↦ nothing_known target
      | some w ↦ record {
        target = target;
        keys = where_keys u pk (drop (suc w) toks) params;
        post = none;
      }
    ]

    unfoldable pub effect_of : Classified → List Tok → List V → Effect V
    unfolding insert_effect update_effect delete_effect
    effect_of c toks params =
        let pk = primary_key_of c.target in
        if text_beq c.main (codes "INSERT") || text_beq c.main (codes "REPLACE")
        then insert_effect pk c.target toks params
        else if text_beq c.main (codes "UPDATE")
        then update_effect pk c.target toks params
        else if text_beq c.main (codes "DELETE")
        then delete_effect pk c.target toks params
        else nothing_known c.target

    unfoldable pub derive_effect : Text → List V → Effect V
    unfolding effect_of
    derive_effect sql params =
        let c = classify_statement u sql in
        if is_mutation c.kind
        then effect_of c (first_statement (tokenize u sql)) params
        else nothing_known c.target
