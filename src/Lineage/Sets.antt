-- ===== src/Lineage/Sets.antt =====
-- Lists of distinct numbers in the place of Python's sets: what they contain after the operations of
-- memora/storage.py on them.
use memora.Prelude.{
  ℕ, Bool, true, ◌&&◌, ◌||◌, List, [], ◌∷◌, ◌++◌, ◌≡◌, arith, contains, contains-append, keep_if,
  nat_eq, inl, inr, Bool-cases, ap, All, nat_eq_iff, subst,
}
use memora.Lineage.Walk.{add_new}

pub contains-keep_if :
    (p : ℕ → Bool) (xs : List ℕ) (a : ℕ) → contains (keep_if p xs) a ≡ (p a && contains xs a)
contains-keep_if p [] a = ground arith
contains-keep_if p (x ∷ xs) a = elim (Bool-cases (nat_eq x a)) [
  | inl same ↦
      let px : p x ≡ p a = ap p ((nat_eq_iff x a).0 same) in
      ground (arith, contains-keep_if p xs a, px, same)
  | inr other ↦ ground (arith, contains-keep_if p xs a, other)
]

pub contains-add_new :
    (seen xs : List ℕ) (a : ℕ) → contains (add_new seen xs) a ≡ (contains seen a || contains xs a)
unfolding add_new
contains-add_new seen [] a = ground arith
contains-add_new seen (x ∷ xs) a = elim (Bool-cases (contains seen x)) [
  | inl old ↦ rw old (
      rw (contains-add_new seen xs a) (elim (Bool-cases (nat_eq x a)) [
        | inl same ↦
            let old_a : contains seen a ≡ true =
              subst (λ u. contains seen u ≡ true) ((nat_eq_iff x a).0 same) old in
            ground (arith, old_a)
        | inr other ↦ ground (arith, other)
      ]))
  | inr new ↦
      rw new (rw (contains-add_new (seen ++ x ∷ []) xs a) (rw contains-append (ground arith)))
]

-- A property of each element, from one of each number that the list contains.
pub All-from_contains {ℓ} :
    (P : ℕ → Type ℓ) (xs : List ℕ) → ((a : ℕ) → contains xs a ≡ true → P a) → All P xs
All-from_contains P [] f = tt
All-from_contains P (x ∷ xs) f =
    (f x (ground (arith, nat_eq_iff x x)), All-from_contains P xs (λ a h. f a (ground (arith, h))))

pub All-at {ℓ} : (P : ℕ → Type ℓ) (xs : List ℕ) (a : ℕ) → All P xs → contains xs a ≡ true → P a
All-at P [] a h c = ground arith
All-at P (x ∷ xs) a h c = elim (Bool-cases (nat_eq x a)) [
  | inl same ↦ subst P ((nat_eq_iff x a).0 same) h.0
  | inr other ↦ All-at P xs a h.1 (ground (arith, c, other))
]
