-- ===== src/SqlClassify/Tokens.antt =====
-- `_tokenize` of memora/sql_classify.py.
use memora.Prelude.{
  true, false, ℕ, zero, suc, ◌+◌, Bool, false, not, ◌&&◌, ◌||◌, Option, none, some, List, [], ◌∷◌,
  nat_eq, length, if◌then◌else◌, contains,
}
use memora.Prelude.Text.{Text, codes}

-- What Python's str methods say of the code points: the Unicode tables are not the program's.
pub record CharTables : Type 0 where
  pub is_space : ℕ → Bool
  pub is_alpha : ℕ → Bool
  pub is_alnum : ℕ → Bool
  pub is_digit : ℕ → Bool
  pub upper : Text → Text
  pub lower : Text → Text

pub data TokKind : Type 0 where
  word str ident punct param num : TokKind

pub record Tok : Type 0 where
  pub kind : TokKind
  pub text : Text

-- The code points from here that a line comment takes, its newline included.
unfoldable pub to_newline : Text → ℕ
to_newline [] = 0
to_newline (c ∷ s) = if nat_eq c 10 then 1 else suc (to_newline s)

abbrev add_one : Option ℕ → Option ℕ
add_one none = none
add_one (some n) = some (suc n)

abbrev starts : ℕ → Text → Bool
starts c [] = false
starts c (x ∷ s) = nat_eq x c

-- Those up to the end of a block comment, its closing included.
unfoldable pub to_comment_end : Text → Option ℕ
to_comment_end [] = none
to_comment_end (c ∷ s) =
    let rest = to_comment_end s in if nat_eq c 42 && starts 47 s then some 2 else add_one rest

abbrev with_char : ℕ → ℕ → Option (Text × ℕ) → Option (Text × ℕ)
with_char c n none = none
with_char c n (some (t, m)) = some (c ∷ t, n + m)

-- The content of a literal whose opening stands before, and the code points it takes: a doubled closing
-- mark stands for one, but not for `]`.
unfoldable pub quoted : ℕ → Text → Option (Text × ℕ)
quoted close [] = none
quoted close (c ∷ []) = if nat_eq c close then some ([], 1) else none
quoted close (c ∷ d ∷ s) = elim (nat_eq c close) [
  | false ↦ with_char c 1 (quoted close (d ∷ s))
  | true ↦ elim (not (nat_eq close 93) && nat_eq d close) [
    | true ↦ with_char close 2 (quoted close s)
    | false ↦ some ([], 1)
  ]
]

unfoldable pub take_while : (ℕ → Bool) → Text → Text
take_while p [] = []
take_while p (c ∷ s) = let rest = take_while p s in if p c then c ∷ rest else []

-- What stands at one place: nothing that counts, or a token, with the code points behind the first that
-- it takes.
pub data Lexed : Type 0 where
  skipped : ℕ → Lexed
  token : TokKind → Text → ℕ → Lexed
  unterminated : Lexed

after_comment : Option ℕ → Lexed
after_comment none = unterminated
after_comment (some n) = skipped (suc n)

after_literal : ℕ → Option (Text × ℕ) → Lexed
after_literal c none = unterminated
after_literal c (some (t, n)) = token (if nat_eq c 39 then str else ident) t n

run_of : TokKind → ℕ → Text → Lexed
run_of k c t = token k (c ∷ t) (length t)

abbrev two_char : ℕ → ℕ → Bool
two_char c d =
    (nat_eq c 60 && (nat_eq d 61 || nat_eq d 62))
    || ((nat_eq c 62 && nat_eq d 61)
        || ((nat_eq c 33 && nat_eq d 61)
            || ((nat_eq c 61 && nat_eq d 61) || (nat_eq c 124 && nat_eq d 124))))

punct_of : ℕ → Text → Lexed
punct_of c [] = token punct (c ∷ []) 0
punct_of c (d ∷ s) = if two_char c d then token punct (c ∷ d ∷ []) 1 else token punct (c ∷ []) 0

behind_one : Text → Text
behind_one [] = []
behind_one (c ∷ s) = s

module _ (u : CharTables) where
  unfoldable pub lex : ℕ → Text → Lexed
  unfolding after_comment after_literal run_of punct_of behind_one
  lex c s =
      if u.is_space c
      then skipped 0
      else if nat_eq c 45 && starts 45 s
      then skipped (to_newline s)
      else if nat_eq c 47 && starts 42 s
      then after_comment (to_comment_end (behind_one s))
      else if contains (codes "'\"`[") c
      then after_literal c (quoted (if nat_eq c 91 then 93 else c) s)
      else if u.is_alpha c || nat_eq c 95
      then run_of word c (take_while (λ x. u.is_alnum x || contains (codes "_$") x) s)
      else if u.is_digit c
      then run_of num c (take_while (λ x. u.is_alnum x || nat_eq x 46) s)
      else if contains (codes "?:@$") c
      then run_of param c (take_while (λ x. u.is_alnum x || nat_eq x 95) s)
      else punct_of c s

  abbrev pub add_token : Tok → Option (List Tok) → Option (List Tok)
  add_token t none = none
  add_token t (some ts) = some (t ∷ ts)

  -- The tokens behind some code points that are taken already; none on an unterminated literal or comment.
  unfoldable pub tokens_from : ℕ → Text → Option (List Tok)
  tokens_from n [] = some []
  tokens_from (suc n) (c ∷ s) = tokens_from n s
  tokens_from zero (c ∷ s) = elim (lex c s) [
    | skipped n ↦ tokens_from n s
    | token k t n ↦ add_token (record { kind = k; text = t }) (tokens_from n s)
    | unterminated ↦ none
  ]

  unfoldable pub tokenize : Text → Option (List Tok)
  unfolding tokens_from
  tokenize sql = tokens_from 0 sql
