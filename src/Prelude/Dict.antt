-- ===== src/Prelude/Dict.antt =====
-- Python's dict as an association list in insertion order: a write to a key that is there keeps the
-- key's place.
use mathlib.Core.Path.{◌≡◌, refl}
use mathlib.Core.Logic.{◌≢◌, inl, inr}
use mathlib.Core.Option.{Option, none, some}
use mathlib.Core.List.{List, [], ◌∷◌}
use native.Mathlib.Omega.{arith}
use memora.Prelude.Tests.{Comparable, ◌==◌, Bool-cases, if◌then◌else◌}

module _ {ℓ κ} {K : Type ℓ} {V : Type κ} ⦃e : Comparable K⦄ where
  -- d.get(k)
  unfoldable pub lookup : K → List (K × V) → Option V
  lookup k [] = none
  lookup k ((j, v) ∷ d) = if j == k then some v else lookup k d

  -- d[k] = v
  unfoldable pub insert : K → V → List (K × V) → List (K × V)
  insert k v [] = (k, v) ∷ []
  insert k v ((j, w) ∷ d) = if j == k then (j, v) ∷ d else (j, w) ∷ insert k v d

  -- d.pop(k, None)
  unfoldable pub remove : K → List (K × V) → List (K × V)
  remove k [] = []
  remove k ((j, v) ∷ d) = let rest = remove k d in if j == k then rest else (j, v) ∷ rest

  pub lookup-insert :
      (k j : K) (v : V) (d : List (K × V))
      → lookup j (insert k v d) ≡ (if k == j then some v else lookup j d)
  unfolding lookup insert
  lookup-insert k j v [] = refl
  lookup-insert k j v ((i, w) ∷ d) =
      ground (arith, e.same_iff k j, e.same_iff i k, e.same_iff i j, lookup-insert k j v d)

  pub lookup-remove :
      (k j : K) (d : List (K × V)) → lookup j (remove k d) ≡ (if k == j then none else lookup j d)
  unfolding lookup remove
  lookup-remove k j [] = ground arith
  lookup-remove k j ((i, w) ∷ d) =
      ground (arith, e.same_iff k j, e.same_iff i k, e.same_iff i j, lookup-remove k j d)

  pub lookup-insert_self : (k : K) (v : V) (d : List (K × V)) → lookup k (insert k v d) ≡ some v
  lookup-insert_self k v d = rw lookup-insert (rw ((e.same_iff k k).1 refl))

  -- A key that is there stays there.
  pub lookup-insert-ne_none :
      (k j : K) (v : V) (d : List (K × V)) → lookup j d ≢ none → lookup j (insert k v d) ≢ none
  lookup-insert-ne_none k j v d h n = elim (Bool-cases (k == j)) [
    | inl same ↦ cc (rw (lookup-insert, same) at n)
    | inr other ↦ h (rw (lookup-insert, other) at n)
  ]
