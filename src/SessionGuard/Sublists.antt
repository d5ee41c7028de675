-- ===== src/SessionGuard/Sublists.antt =====
-- Lists of tokens with some left out, for the window of memora/session_guard.py.
use memora.Prelude.{
  ◌+◌, not, ◌&&◌, nat_eq, leb, ltb, All, ℕ, ◌≤◌, Bool, true, false, List, [], ◌∷◌, ◌++◌, ◌≡◌, refl,
  arith, length, keep_if, if◌then◌else◌, Bool-cases, inl, inr,
}
use memora.SessionGuard.{drop_old, remove_token}

abbrev pub is_token : ℕ × ℕ → ℕ × ℕ → Bool
is_token (t, n) (s, m) = nat_eq s t && nat_eq m n

-- The tokens of the last minute.
abbrev pub in_window : ℕ → ℕ → ℕ × ℕ → Bool
in_window window now (t, n) = leb now (t + window)

abbrev pub recent : ℕ → ℕ → List (ℕ × ℕ) → List (ℕ × ℕ)
recent window now log = keep_if (in_window window now) log

-- One list is the other with some left out.
pub data Sub : List (ℕ × ℕ) → List (ℕ × ℕ) → Type 0 where
  none_left : Sub [] []
  both : (x : ℕ × ℕ) {xs ys : List (ℕ × ℕ)} → Sub xs ys → Sub (x ∷ xs) (x ∷ ys)
  skip : (y : ℕ × ℕ) {xs ys : List (ℕ × ℕ)} → Sub xs ys → Sub xs (y ∷ ys)

pub Sub-length : {xs ys : List (ℕ × ℕ)} → Sub xs ys → length xs ≤ length ys
Sub-length none_left = omega arith
Sub-length (both x s) = omega (arith, Sub-length s)
Sub-length (skip y s) = omega (arith, Sub-length s)

pub Sub-keep_if : (p : ℕ × ℕ → Bool) {xs ys : List (ℕ × ℕ)} → Sub xs ys → Sub (keep_if p xs) ys
Sub-keep_if p none_left = none_left
Sub-keep_if p (both x s) = elim (Bool-cases (p x)) [
  | inl kept ↦ rw (kept, keep_if) (both x (Sub-keep_if p s))
  | inr left ↦ rw (left, keep_if) (skip x (Sub-keep_if p s))
]
Sub-keep_if p (skip y s) = skip y (Sub-keep_if p s)

pub Sub-snoc :
    (b : Bool) (x : ℕ × ℕ) {xs ys : List (ℕ × ℕ)}
    → Sub xs ys
    → Sub (xs ++ (if b then x ∷ [] else [])) (ys ++ x ∷ [])
Sub-snoc true x none_left = both x none_left
Sub-snoc false x none_left = skip x none_left
Sub-snoc b x (both y s) = both y (Sub-snoc b x s)
Sub-snoc b x (skip y s) = skip y (Sub-snoc b x s)

pub keep_if-append :
    (p : ℕ × ℕ → Bool) (xs ys : List (ℕ × ℕ)) → keep_if p (xs ++ ys) ≡ keep_if p xs ++ keep_if p ys
keep_if-append p [] ys = refl
keep_if-append p (x ∷ xs) ys = ground (arith, keep_if-append p xs ys)

pub keep_if_comm :
    (p q : ℕ × ℕ → Bool) (xs : List (ℕ × ℕ)) → keep_if p (keep_if q xs) ≡ keep_if q (keep_if p xs)
keep_if_comm p q [] = refl
keep_if_comm p q (x ∷ xs) = ground (arith, keep_if_comm p q xs)

pub recent-All :
    (window now now' : ℕ) (log : List (ℕ × ℕ))
    → now ≤ now'
    → All (λ x. now ≤ x.0 + window) (recent window now' log)
recent-All window now now' [] h = tt
recent-All window now now' ((t, n) ∷ log) h = elim (Bool-cases (leb now' (t + window))) [
  | inl kept ↦ rw (kept, keep_if) (ground arith, recent-All window now now' log h)
  | inr left ↦ rw (left, keep_if) (recent-All window now now' log h)
]

-- Nothing that is recent is dropped.
pub Sub-drop_old :
    (window now : ℕ) {xs ys : List (ℕ × ℕ)}
    → All (λ x. now ≤ x.0 + window) xs
    → Sub xs ys
    → Sub xs (drop_old window now ys)
unfolding drop_old
Sub-drop_old window now young none_left = none_left
Sub-drop_old window now young (both (t, n) s) =
    let fresh_one : ltb (t + window) now ≡ false = let h = young.0 in ground arith in
    rw fresh_one (both (t, n) s)
Sub-drop_old window now young (skip (t, n) s) = elim (Bool-cases (ltb (t + window) now)) [
  | inl old ↦ rw old (Sub-drop_old window now young s)
  | inr kept ↦ rw kept (skip (t, n) s)
]

pub Sub-remove_token :
    (token : ℕ × ℕ) {xs ys : List (ℕ × ℕ)}
    → Sub xs ys
    → Sub (keep_if (λ other. not (is_token token other)) xs) (remove_token token ys)
unfolding remove_token
Sub-remove_token (t, n) none_left = none_left
Sub-remove_token (t, n) (both (s, m) h) = elim (Bool-cases (nat_eq s t && nat_eq m n)) [
  | inl same ↦ rw (same, keep_if) (Sub-keep_if (λ other. not (is_token (t, n) other)) h)
  | inr apart ↦ rw (apart, keep_if) (both (s, m) (Sub-remove_token (t, n) h))
]
Sub-remove_token (t, n) (skip (s, m) h) = elim (Bool-cases (nat_eq s t && nat_eq m n)) [
  | inl same ↦ rw same (Sub-keep_if (λ other. not (is_token (t, n) other)) h)
  | inr apart ↦ rw apart (skip (s, m) (Sub-remove_token (t, n) h))
]
