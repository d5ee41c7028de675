-- ===== src/Lineage/Healing.antt =====
-- What a round of `_heal_supersession_fork` of memora/storage.py writes.
use memora.Prelude.{ℕ, Bool, not, ◌&&◌, List, ◌++◌, ◌≡◌, nat_eq, keep_if, All}
use memora.Lineage.Store.{Store, supersedes}
use memora.Lineage.Links.{LinkedBoth}

-- What a link leaves alone: the rows and the retired ids.
pub record KeepsRows (s s' : Store) : Type 0 where
  pub rows : s'.rows ≡ s.rows
  pub components : s'.components ≡ s.components
  pub tombstones : s'.tombstones ≡ s.tombstones

module _ (may_collapse : ℕ → ℕ → Bool) (winner : ℕ) where
  abbrev pub is_taken : ℕ → Bool
  is_taken l = not (nat_eq l winner) && may_collapse winner l

  abbrev pub is_left : ℕ → Bool
  is_left l = not (nat_eq l winner) && not (may_collapse winner l)

  pub record Settles (losers kept kept' : List ℕ) (s s' : Store) : Type 0 where
    pub left : kept' ≡ kept ++ keep_if is_left losers
    pub taken : All (λ l. LinkedBoth winner l supersedes s') (keep_if is_taken losers)
    pub keeps : KeepsRows s s'
