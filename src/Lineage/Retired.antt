-- ===== src/Lineage/Retired.antt =====
-- What `_tombstone_component` of memora/storage.py marks while other writers link.
use memora.Prelude.{ℕ, true, List, ◌≡◌, contains}
use memora.Lineage.Store.{Store}
use memora.Lineage.Retire.{component_of}

module _ (others : Store → Store)
    (no_revival : (s : Store) (m : ℕ)
      → contains s.components m ≡ true
      → contains (others s).components m ≡ true) where
  -- Every marked id is in the table of retired ids.
  abbrev AreRetired : List ℕ → Store → Type 0
  AreRetired marked s = (m : ℕ) → contains marked m ≡ true → contains s.components m ≡ true

  -- Every id of the component that is read from the tables is marked.
  abbrev AreMarked : ℕ → List ℕ × Store → Type 0
  AreMarked i (marked, s) =
      (m : ℕ) → contains (component_of s i) m ≡ true → contains marked m ≡ true
