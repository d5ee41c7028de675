-- ===== src/Lineage/Versions.antt =====
-- What `_resolve_latest` and follow="active" of memora/storage.py answer.
use memora.Prelude.{
  All, ℕ, Bool, true, false, not, ◌&&◌, List, ◌≡◌, ◌∙◌, arith, contains, contains-append,
}
use memora.Lineage.Store.{Store, is_tombstoned_id, retired_memory_ids}
use memora.Lineage.Walk.{Readers, has_successor}
use memora.Lineage.Latest.{maximum}
use memora.Lineage.Sets.{contains-keep_if}
use memora.Lineage.Follow.{is_superseded, follow_status, follow_active}
use memora.Lineage.Batched.{HasNoPending, follow_status-is_superseded, follow_status-retired}

-- What a latest version of an id is: in its forward walk, and there either the end of the lineage and
-- not retired, or the greatest id of a lineage without an end.
pub data IsLatest (r : Readers) (retired : ℕ → Bool) (ids : List ℕ) (m : ℕ) : Type 0 where
  end :
      contains ids m ≡ true
      → has_successor r ids m ≡ false
      → retired m ≡ false
      → IsLatest r retired ids m
  of_cycle :
      All (λ k. has_successor r ids k ≡ true) ids → m ≡ maximum ids → IsLatest r retired ids m

-- follow="active" keeps the results that are neither superseded nor retired, when no row is pending.
pub follow_active_keeps :
    (s : Store) (results : List ℕ) (i : ℕ)
    → HasNoPending s
    → contains (follow_active s results) i
      ≡ (contains results i && (not (is_superseded s i) && not (is_tombstoned_id s i)))
unfolding follow_active is_tombstoned_id retired_memory_ids
follow_active_keeps s results i settled =
    let found = follow_status-is_superseded s results i settled in
    let gone = follow_status-retired s results i in
    let kept =
      contains-keep_if
        (λ j.
          not (contains (follow_status s results).0 j)
          && not (contains (follow_status s results).1 j))
        results i in
    kept ∙ ground (arith, found, gone, contains-append s.components s.tombstones i)
