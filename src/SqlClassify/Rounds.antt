-- ===== src/SqlClassify/Rounds.antt =====
-- The rounds of `_skip_with` in memora/sql_classify.py, against the number of tokens.
use memora.Prelude.{
  if◌then◌else◌, ℕ, zero, suc, ◌≤◌, ◌<◌, true, some, List, [], ◌∷◌, ◌≡◌, refl, arith, length,
  Bool-cases, Option-cases, inl, inr,
}
use memora.Prelude.Text.{codes}
use memora.SqlClassify.Tokens.{CharTables, Tok}
use memora.SqlClassify.Statements.{
  drop, skip_parens, is_punct, is_upper, first_is, first_name, is_some, with_body, column_list,
  skip_if, with_rounds,
}

length-drop : (n : ℕ) (ts : List Tok) → length (drop n ts) ≤ length ts
unfolding drop
length-drop zero ts = omega arith
length-drop (suc n) [] = omega arith
length-drop (suc n) (t ∷ ts) = omega (arith, length-drop n ts)

skip_parens_shrinks :
    (opened closed : ℕ) (ts rest : List Tok)
    → skip_parens opened closed ts ≡ some rest
    → length rest ≤ length ts
unfolding skip_parens
skip_parens_shrinks opened closed [] rest h = ground (arith, h)
skip_parens_shrinks opened closed (t ∷ ts) rest h =
    let opened' = if is_punct 40 t then suc opened else opened in
    let closed' = if is_punct 41 t then suc closed else closed in
    ground (arith, h, skip_parens_shrinks opened' closed' ts rest)

module _ (u : CharTables) where
  column_list_shrinks :
      (ts rest : List Tok) → column_list u ts ≡ some rest → length rest ≤ length ts
  column_list_shrinks ts rest h = elim (Bool-cases (first_is (is_punct 40) ts)) [
    | inl paren ↦ skip_parens_shrinks 0 0 ts rest (rw paren at h)
    | inr other ↦
        let same : some ts ≡ some rest = rw other at h in
        let e : ts ≡ rest = cc same in rw e (omega arith)
  ]

  skip_if_shrinks : (w : List ℕ) (ts : List Tok) → length (skip_if u w ts) ≤ length ts
  skip_if_shrinks w ts = ground (arith, length-drop 1 ts)

  with_body_shrinks :
      (from ts rest : List Tok)
      → length ts ≤ length from
      → with_body u (some ts) ≡ some rest
      → length rest ≤ length from
  unfolding with_body
  with_body_shrinks from ts rest le h =
      let unnot = skip_if u (codes "NOT") (drop 1 ts) in
      let body = skip_if u (codes "MATERIALIZED") unnot in
      let shorter : length body ≤ length ts = omega (
        arith,
        skip_if_shrinks (codes "MATERIALIZED") unnot,
        skip_if_shrinks (codes "NOT") (drop 1 ts),
        length-drop 1 ts,
      ) in
      elim (Bool-cases (first_is (is_upper u (codes "AS")) ts)) [
        | inr other ↦ let h' = rw other at h in ground (arith, h')
        | inl as_there ↦ elim (Bool-cases (first_is (is_punct 40) body)) [
          | inr other ↦ let h' = rw (as_there, other) at h in ground (arith, h')
          | inl paren ↦
              let h' = rw (as_there, paren) at h in
              omega (arith, le, shorter, skip_parens_shrinks 0 0 body rest h')
        ]
      ]

  named_nonempty :
      (ts : List Tok) → is_some u (first_name ts) ≡ true → suc (length (drop 1 ts)) ≤ length ts
  unfolding drop
  named_nonempty [] h = ground (arith, h)
  named_nonempty (t ∷ ts) h = omega arith

  body_shrinks :
      (from rest : List Tok)
      → with_body u (column_list u from) ≡ some rest
      → length rest ≤ length from
  unfolding with_body
  body_shrinks from rest h = elim (Option-cases (column_list u from)) [
    | inl none_there ↦ let h' = rw none_there at h in ground (arith, h')
    | inr (ts, got) ↦ with_body_shrinks from ts rest (column_list_shrinks from ts got) (rw got at h)
  ]

  -- More rounds than tokens answer alike, so the rounds of `skip_with` do not run out.
  pub with_rounds_enough :
      (n m : ℕ) (ts : List Tok)
      → length ts < n
      → length ts < m
      → with_rounds u n ts ≡ with_rounds u m ts
  unfolding with_rounds
  with_rounds_enough zero m ts h k = ground (arith, h)
  with_rounds_enough (suc n) zero ts h k = ground (arith, k)
  with_rounds_enough (suc n) (suc m) ts h k = elim (Bool-cases (is_some u (first_name ts))) [
    | inr unnamed ↦ rw (unnamed, with_rounds) refl
    | inl named ↦ elim (Option-cases (with_body u (column_list u (drop 1 ts)))) [
      | inl bodiless ↦ rw (named, bodiless, with_rounds) refl
      | inr (rest, got) ↦ elim (Bool-cases (first_is (is_punct 44) rest)) [
        | inr last ↦ rw (named, got, last, with_rounds) refl
        | inl comma ↦
            let less : suc (length (drop 1 rest)) ≤ length ts = omega (
              arith,
              length-drop 1 rest,
              body_shrinks (drop 1 ts) rest got,
              named_nonempty ts named,
            ) in
            let next =
              with_rounds_enough n m (drop 1 rest) (omega (arith, less, h))
                (omega (arith, less, k)) in
            rw (named, got, comma, with_rounds) next
      ]
    ]
  ]
