-- ===== src/Lineage/Reachable.antt =====
-- What `_walk_chain` of memora/storage.py may add: the ids that edges of the walk's type lead to.
use memora.Prelude.{ℕ, true, ◌≡◌, Memᴰ}
use memora.Lineage.Store.{Edge}
use memora.Lineage.Walk.{Readers, Direction, follows}

-- An id is the start, or the existing peer of an edge of one that is led to.
pub data LeadsTo (r : Readers) (d : Direction) (i : ℕ) : ℕ → Type 0 where
  start : LeadsTo r d i i
  hop :
      {j : ℕ} {ref : Edge}
      → LeadsTo r d i j
      → Memᴰ ref (r.crossrefs j)
      → follows d ref.kind ≡ true
      → r.exists ref.peer ≡ true
      → LeadsTo r d i ref.peer
