-- ===== src/Lineage/Retire.antt =====
-- `_retire_members_atomic` and `_tombstone_component` of memora/storage.py, by the ids that they mark.
use memora.Prelude.{ℕ, zero, suc, Bool, true, false, not, List, [], ◌∷◌, contains, keep_if}
use memora.Lineage.Store.{Store}
use memora.Lineage.Walk.{store_readers, get_full_history, add_new}

-- INSERT … ON CONFLICT(memory_id): each id once.
unfoldable pub retire_members : List ℕ → Store → Store
retire_members ids s = record s { components = add_new s.components ids }

abbrev pub empty_list : List ℕ → Bool
empty_list [] = true
empty_list (x ∷ xs) = false

-- The ids of the component that a rewalk reads.
unfoldable pub component_of : Store → ℕ → List ℕ
component_of s i = add_new (get_full_history (store_readers s) i) (i ∷ [])

module _ (others : Store → Store) where
  -- The rewalks that are left, after the first mark; `others` is what other writers do between two.
  unfoldable pub rewalk : ℕ → ℕ → List ℕ → Store → List ℕ × Store
  rewalk zero i marked s = (marked, s)
  rewalk (suc rounds) i marked s =
      let component = component_of s i in
      elim (empty_list (keep_if (λ m. not (contains marked m)) component)) [
        | true ↦ (marked, s)
        | false ↦ rewalk rounds i (add_new marked component) (others (retire_members component s))
      ]

  -- The ids that a call marks: its first reading of the component, and what the rewalks find.
  unfoldable pub marked_by : ℕ → Store → List ℕ × Store
  unfolding rewalk
  marked_by i s =
      let snapshot = component_of s i in rewalk 7 i snapshot (others (retire_members snapshot s))

  -- The best-effort rows of `tombstones`: a failed insert is passed over, `stored` says which.
  unfoldable pub tombstone_component : (ℕ → Bool) → ℕ → Store → Store
  unfolding marked_by
  tombstone_component stored i s =
      let (marked, s') = marked_by i s in
      record s' { tombstones = add_new s'.tombstones (keep_if stored marked) }
