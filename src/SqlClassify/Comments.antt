-- ===== src/SqlClassify/Comments.antt =====
-- What `_tokenize` of memora/sql_classify.py drops: spaces and comments before a statement.
use memora.Prelude.{
  ℕ, suc, Bool, true, false, not, ◌&&◌, Option, none, some, List, [], ◌∷◌, ◌++◌, ◌≡◌, refl, ap, ◌∙◌,
  arith, nat_eq, length, contains,
}
use mathlib.Core.List.{append_assoc}
use memora.Prelude.Text.{Text}
use memora.SqlClassify.Tokens.{
  CharTables, Tok, Lexed, skipped, token, unterminated, add_token, to_newline, to_comment_end, lex,
  tokens_from, tokenize,
}
use memora.SqlClassify.Classify.{classify_tokens, classify_statement}

-- Code points with no newline.
abbrev pub one_line : Text → Bool
one_line t = not (contains t 10)

to_newline_lem :
    (body s : Text) → one_line body ≡ true → to_newline (body ++ 10 ∷ s) ≡ suc (length body)
unfolding to_newline
to_newline_lem [] s h = refl
to_newline_lem (c ∷ body) s h =
    let rest = to_newline_lem body s (ground (arith, h)) in ground (arith, h, rest)

tokens_from_line :
    (u : CharTables) (body s : Text)
    → tokens_from u (suc (length body)) (body ++ 10 ∷ s) ≡ tokens_from u 0 s
unfolding tokens_from
tokens_from_line u [] s = refl
tokens_from_line u (c ∷ body) s = tokens_from_line u body s

-- A text in which no block comment ends.
abbrev pub no_end : Text → Bool
no_end [] = true
no_end (c ∷ []) = true
no_end (c ∷ d ∷ t) = not (nat_eq c 42 && nat_eq d 47) && no_end (d ∷ t)

to_comment_end_lem :
    (body s : Text)
    → no_end body ≡ true
    → to_comment_end (body ++ 42 ∷ 47 ∷ s) ≡ some (suc (suc (length body)))
unfolding to_comment_end
to_comment_end_lem [] s h = refl
to_comment_end_lem (c ∷ []) s h = ground arith
to_comment_end_lem (c ∷ d ∷ t) s h =
    let rest = to_comment_end_lem (d ∷ t) s (ground (arith, h)) in
    let apart : (nat_eq c 42 && nat_eq d 47) ≡ false = ground (arith, h) in rw rest (rw apart refl)

tokens_from_block :
    (u : CharTables) (body s : Text)
    → tokens_from u (suc (suc (length body))) (body ++ 42 ∷ 47 ∷ s) ≡ tokens_from u 0 s
unfolding tokens_from
tokens_from_block u [] s = refl
tokens_from_block u (c ∷ body) s = tokens_from_block u body s

-- The marks that open comments are no spaces.
pub record HasPlainMarks (u : CharTables) : Type 0 where
  pub minus : u.is_space 45 ≡ false
  pub slash : u.is_space 47 ≡ false

-- Spaces and comments that end.
pub data Blank (u : CharTables) : Text → Type 0 where
  nothing : Blank u []
  space : {c : ℕ} {b : Text} → u.is_space c ≡ true → Blank u b → Blank u (c ∷ b)
  line :
      (body : Text) {b : Text}
      → one_line body ≡ true
      → Blank u b
      → Blank u (45 ∷ 45 ∷ (body ++ 10 ∷ b))
  block :
      (body : Text) {b : Text}
      → no_end body ≡ true
      → Blank u b
      → Blank u (47 ∷ 42 ∷ (body ++ 42 ∷ 47 ∷ b))

module _ (u : CharTables) (marks : HasPlainMarks u) where
  lex_line :
      (body s : Text)
      → one_line body ≡ true
      → lex u 45 (45 ∷ (body ++ 10 ∷ s)) ≡ skipped (suc (suc (length body)))
  unfolding lex to_newline
  lex_line body s h = rw marks.minus (rw (to_newline_lem body s h) refl)

  lex_block :
      (body s : Text)
      → no_end body ≡ true
      → lex u 47 (42 ∷ (body ++ 42 ∷ 47 ∷ s)) ≡ skipped (suc (suc (suc (length body))))
  unfolding lex
  lex_block body s h = rw marks.slash (rw (to_comment_end_lem body s h) refl)

  lex_space : (c : ℕ) (s : Text) → u.is_space c ≡ true → lex u c s ≡ skipped 0
  unfolding lex
  lex_space c s h = rw h refl

  tokens_skip :
      (c n : ℕ) (s : Text) → lex u c s ≡ skipped n → tokens_from u 0 (c ∷ s) ≡ tokens_from u n s
  unfolding tokens_from
  tokens_skip c n s h =
      ap
        (λ (l : Lexed). elim l as (λ _. Option (List Tok)) [
          | skipped m ↦ tokens_from u m s
          | token k t m ↦
              let made : Tok = record { kind = k; text = t } in add_token u made (tokens_from u m s)
          | unterminated ↦ none
        ])
        h

  tokens_from-Blank : (b s : Text) → Blank u b → tokens_from u 0 (b ++ s) ≡ tokens_from u 0 s
  unfolding tokens_from
  tokens_from-Blank b s nothing = refl
  tokens_from-Blank b s (space {c} {b = rest} h more) =
      tokens_skip c 0 (rest ++ s) (lex_space c (rest ++ s) h) ∙ tokens_from-Blank rest s more
  tokens_from-Blank b s (line body {b = rest} h more) = rw (append_assoc body (10 ∷ rest) s) (
      tokens_skip 45 (suc (suc (length body))) (45 ∷ (body ++ 10 ∷ (rest ++ s)))
        (lex_line body (rest ++ s) h)
      ∙ tokens_from_line u body (rest ++ s)
      ∙ tokens_from-Blank rest s more)
  tokens_from-Blank b s (block body {b = rest} h more) = rw (append_assoc body (42 ∷ 47 ∷ rest) s) (
      tokens_skip 47 (suc (suc (suc (length body)))) (42 ∷ (body ++ 42 ∷ 47 ∷ (rest ++ s)))
        (lex_block body (rest ++ s) h)
      ∙ tokens_from_block u body (rest ++ s)
      ∙ tokens_from-Blank rest s more)

  -- Where the minus sign and the slash are no spaces, a statement is classified as it is without the
  -- spaces, ended line comments and block comments before it.
  pub classify_statement-Blank :
      (b s : Text) → Blank u b → classify_statement u (b ++ s) ≡ classify_statement u s
  unfolding classify_statement tokenize
  classify_statement-Blank b s h = ap (classify_tokens u) (tokens_from-Blank b s h)
