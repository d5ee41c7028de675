-- ===== src/Lineage/Tests.antt =====
-- Runs of memora/storage.py's lineage on small tables, and its theorems applied to them.
use memora.Prelude.{
  ℕ, true, false, [], ◌∷◌, ◌≡◌, refl, arith, contains, lookup, insert, ℕ_comparable, ◌&&◌, Memᴰ,
  not, All,
}
use memora.Lineage.Store.{
  Edge, Store, supersedes, superseded_by, extends, extended_by, has_row, memory_exists,
  get_crossrefs, is_link_type, upsert_crossref_edge, reverse_edge_type, add_link, remove_link,
  linked, retired_memory_ids, is_tombstoned_id,
}
use memora.Lineage.Walk.{
  walk_roots, roots_of, store_readers, forward, walk_chain, get_full_history, walk_from,
  walk_levels, visit_queue, visit_refs, visit, takes, sorted, has_parent, has_successor,
  insert_sorted, add_new,
}
use memora.Lineage.View.{
  load_supersession_view, view_levels, next_frontier, new_peers, read_crossrefs, view_readers,
}
use memora.Lineage.Latest.{
  heal_supersession_fork, heal_rounds, healed, live_leaves, component_live_leaves, collapse,
  contenders_of, maximum, leaves_in, resolve_latest, leaves_of,
}
use memora.Lineage.Retire.{component_of}
use memora.Lineage.Follow.{
  follow_latest, follow_latest_legacy, follow_active, follow_full_history, is_superseded, claims,
  follow_status, follow_status_legacy, plan_latest, leaves_by_id, add_versions, batched, shown,
  walk_seeds,
}
use memora.Lineage.Reachable.{LeadsTo, start, hop}
use memora.Lineage.Reaches.{walk_chain_complete, walk_chain-distinct}
use memora.Lineage.Complete.{distinct}
use memora.Lineage.WalkLaws.{walk_chain-LeadsTo}
use memora.Lineage.Versions.{follow_active_keeps}
use memora.Lineage.Batched.{HasNoPending, follow_latest_is_legacy, follow_status_is_legacy}
use memora.Lineage.Links.{LinkedBoth, add_link-LinkedBoth, edges_to, remove_link_clears}

abbrev edge : ℕ → Edge
edge p = record { peer = p; kind = superseded_by }

abbrev back_edge : ℕ → Edge
back_edge p = record { peer = p; kind = supersedes }

-- 2 supersedes 1, 3 supersedes 2, and 7 stands alone.
abbrev small : Store
small = record {
  rows = (1, false) ∷ (2, false) ∷ (3, false) ∷ (7, false) ∷ [];
  crossrefs = (1, edge 2 ∷ []) ∷ (2, back_edge 1 ∷ edge 3 ∷ []) ∷ (3, back_edge 2 ∷ []) ∷ [];
  components = [];
  tombstones = [];
}

small-HasNoPending : HasNoPending small
unfolding memory_exists has_row lookup
small-HasNoPending i = ground arith

small_latest : follow_latest small [] (1 ∷ 7 ∷ 2 ∷ []) ≡ 3 ∷ 7 ∷ []
unfolding follow_latest load_supersession_view view_levels next_frontier new_peers read_crossrefs
    plan_latest leaves_by_id resolve_latest leaves_of has_successor add_versions batched shown
    walk_seeds view_readers follow_status add_new has_row retired_memory_ids claims walk_chain
    walk_from walk_levels visit_queue visit_refs visit takes store_readers get_crossrefs lookup
    memory_exists
small_latest = refl

small_active : follow_active small (1 ∷ 7 ∷ 3 ∷ []) ≡ 7 ∷ 3 ∷ []
unfolding follow_active follow_status add_new get_crossrefs lookup has_row retired_memory_ids claims
small_active = refl

small_history : follow_full_history small (2 ∷ 3 ∷ 7 ∷ []) ≡ 1 ∷ 2 ∷ 3 ∷ 7 ∷ []
unfolding follow_full_history get_full_history sorted has_parent insert_sorted add_new has_row
    walk_chain walk_from walk_levels visit_queue visit_refs visit takes store_readers get_crossrefs
    lookup memory_exists
small_history = refl

follow_latest_is_legacy_example :
    follow_latest small [] (1 ∷ 7 ∷ 2 ∷ []) ≡ follow_latest_legacy small [] (1 ∷ 7 ∷ 2 ∷ [])
follow_latest_is_legacy_example =
    follow_latest_is_legacy small [] (1 ∷ 7 ∷ 2 ∷ []) small-HasNoPending

small_rows :
    (i : ℕ) → (store_readers small).exists i ≡ true → contains (1 ∷ 2 ∷ 3 ∷ 7 ∷ []) i ≡ true
unfolding store_readers memory_exists lookup
small_rows i h = ground (arith, h)

one_to_two : LeadsTo (store_readers small) forward 1 2
unfolding store_readers memory_exists get_crossrefs lookup
one_to_two = hop {ref = edge 2} start (Memᴰ.head refl) refl refl

one_to_three : LeadsTo (store_readers small) forward 1 3
unfolding store_readers memory_exists get_crossrefs lookup
one_to_three = hop {ref = edge 3} one_to_two (Memᴰ.tail (Memᴰ.head refl)) refl refl

small_resolves : contains (resolve_latest (store_readers small) (contains []) 1) 3 ≡ true
unfolding resolve_latest leaves_of has_successor walk_chain walk_from walk_levels visit_queue
    visit_refs visit takes store_readers get_crossrefs lookup memory_exists
small_resolves = refl

abbrev after_link : Store → Store
after_link s = record s {
  crossrefs =
      insert 3 (back_edge 2 ∷ record { peer = 7; kind = extended_by } ∷ [])
        (insert 7 (record { peer = 3; kind = extends } ∷ []) s.crossrefs);
}

small_links : add_link 7 3 extends true small ≡ linked (after_link small)
unfolding add_link is_link_type memory_exists lookup insert upsert_crossref_edge get_crossrefs
    reverse_edge_type
small_links = refl

three_in_component : contains (component_of small 2) 3 ≡ true
unfolding component_of get_full_history sorted has_parent insert_sorted add_new walk_chain walk_from
    walk_levels visit_queue visit_refs visit takes store_readers get_crossrefs lookup memory_exists
three_in_component = refl

walk_chain_complete_example : contains (walk_chain (store_readers small) forward 1) 3 ≡ true
unfolding store_readers
walk_chain_complete_example =
    walk_chain_complete (store_readers small) forward (1 ∷ 2 ∷ 3 ∷ 7 ∷ []) small_rows (ground arith)
      1 3 one_to_three

follow_active_keeps_example :
    contains (follow_active small (1 ∷ 7 ∷ [])) 7
    ≡ (contains (1 ∷ 7 ∷ []) 7 && (not (is_superseded small 7) && not (is_tombstoned_id small 7)))
follow_active_keeps_example = follow_active_keeps small (1 ∷ 7 ∷ []) 7 small-HasNoPending

add_link-LinkedBoth_example : LinkedBoth 7 3 extends (after_link small)
add_link-LinkedBoth_example =
    add_link-LinkedBoth 7 3 extends small (after_link small) (ground arith) small_links

remove_link_clears_example :
    (edges_to (remove_link 1 2 true small) 1 2 ≡ [])
    × (edges_to (remove_link 1 2 true small) 2 1 ≡ [])
remove_link_clears_example = remove_link_clears 1 2 small

walk_chain-LeadsTo_example :
    All (LeadsTo (store_readers small) forward 1) (walk_chain (store_readers small) forward 1)
walk_chain-LeadsTo_example = walk_chain-LeadsTo (store_readers small) forward 1

walk_chain-distinct_example : distinct (walk_chain (store_readers small) forward 1) ≡ true
walk_chain-distinct_example = walk_chain-distinct (store_readers small) forward 1

-- 5 and 6 both supersede 4.
abbrev forked : Store
forked = record {
  rows = (4, false) ∷ (5, false) ∷ (6, false) ∷ [];
  crossrefs = (4, edge 5 ∷ edge 6 ∷ []) ∷ (5, back_edge 4 ∷ []) ∷ (6, back_edge 4 ∷ []) ∷ [];
  components = [];
  tombstones = [];
}

-- 6 comes to supersede 5 as well.
abbrev mended : Store
mended = record forked {
  crossrefs =
      (4, edge 5 ∷ edge 6 ∷ [])
      ∷ (5, back_edge 4 ∷ edge 6 ∷ [])
      ∷ (6, back_edge 4 ∷ back_edge 5 ∷ [])
      ∷ [];
}

forked_heals : heal_supersession_fork (λ w l. true) 4 [] forked ≡ healed [] mended
unfolding heal_supersession_fork heal_rounds live_leaves load_supersession_view view_levels
    next_frontier new_peers read_crossrefs view_readers has_row retired_memory_ids
    component_live_leaves leaves_in leaves_of collapse contenders_of maximum is_tombstoned_id
    has_successor get_full_history sorted has_parent insert_sorted add_new walk_roots roots_of
    walk_chain walk_from walk_levels visit_queue visit_refs visit takes store_readers get_crossrefs
    lookup insert memory_exists add_link is_link_type upsert_crossref_edge reverse_edge_type
forked_heals = refl

follow_status_is_legacy_example :
    follow_status small (1 ∷ 7 ∷ []) ≡ follow_status_legacy small (1 ∷ 7 ∷ [])
follow_status_is_legacy_example = follow_status_is_legacy small (1 ∷ 7 ∷ [])
