-- ===== src/Lineage/Store.antt =====
-- The tables that lineage reads and writes in memora/storage.py: memory rows, crossref lists and the
-- two tombstone tables, with `add_link` and `remove_link`.
use memora.Prelude.{
  ℕ, Bool, true, false, not, ◌||◌, Option, none, some, List, [], ◌∷◌, ◌++◌, lookup, insert,
  contains, keep_if, nat_eq, if◌then◌else◌, ℕ_comparable, length, ltb,
}

pub data EdgeType : Type 0 where
  references referenced_by implements implemented_by supersedes superseded_by : EdgeType
  extends extended_by contradicts related_to : EdgeType

-- One entry of a crossref list whose id is a whole number.
pub record Edge : Type 0 where
  pub peer : ℕ
  pub kind : EdgeType

-- `rows` has the ids of the memory table, each with whether an import still has it pending;
-- `components` and `tombstones` have the ids of the retirement tables.
pub record Store : Type 0 where
  pub rows : List (ℕ × Bool)
  pub crossrefs : List (ℕ × List Edge)
  pub components : List ℕ
  pub tombstones : List ℕ

abbrev list_or_empty : Option (List Edge) → List Edge
list_or_empty none = []
list_or_empty (some refs) = refs

unfoldable pub get_crossrefs : Store → ℕ → List Edge
get_crossrefs s i = list_or_empty (lookup i s.crossrefs)

abbrev live_row : Option Bool → Bool
live_row none = false
live_row (some pending) = not pending

-- `_memory_exists`: an import-pending row does not count.
unfoldable pub memory_exists : Store → ℕ → Bool
memory_exists s i = live_row (lookup i s.rows)

abbrev any_row : Option Bool → Bool
any_row none = false
any_row (some pending) = true

-- A row with the id, pending or not: what the batched queries test.
unfoldable pub has_row : Store → ℕ → Bool
has_row s i = any_row (lookup i s.rows)

-- `_is_tombstoned_id` without a set that was read before.
unfoldable pub is_tombstoned_id : Store → ℕ → Bool
is_tombstoned_id s i = contains s.components i || contains s.tombstones i

-- `retired_memory_ids`
unfoldable pub retired_memory_ids : Store → List ℕ
retired_memory_ids s = s.components ++ s.tombstones

unfoldable pub reverse_edge_type : EdgeType → EdgeType
reverse_edge_type references = referenced_by
reverse_edge_type implements = implemented_by
reverse_edge_type supersedes = superseded_by
reverse_edge_type extends = extended_by
reverse_edge_type contradicts = contradicts
reverse_edge_type _ = related_to

-- `edge_type in EDGE_TYPES`
unfoldable pub is_link_type : EdgeType → Bool
is_link_type related_to = true
is_link_type supersedes = true
is_link_type contradicts = true
is_link_type implements = true
is_link_type extends = true
is_link_type references = true
is_link_type _ = false

-- `_upsert_crossref_edge` where no other writer intervenes: one edge to a peer.
unfoldable pub upsert_crossref_edge : ℕ → ℕ → EdgeType → Store → Store
upsert_crossref_edge i peer kind s = record s {
  crossrefs =
      insert i
        (keep_if (λ r. not (nat_eq r.peer peer)) (get_crossrefs s i)
          ++ record { peer = peer; kind = kind } ∷ [])
        s.crossrefs;
}

pub data LinkError : Type 0 where
  invalid_edge_type : LinkError
  not_found : ℕ → LinkError

pub data Linked : Type 0 where
  linked : Store → Linked
  link_failed : LinkError → Linked

unfoldable pub add_link : ℕ → ℕ → EdgeType → Bool → Store → Linked
unfolding upsert_crossref_edge
add_link from_id to_id kind bidirectional s =
    if not (is_link_type kind)
    then link_failed invalid_edge_type
    else if not (memory_exists s from_id)
    then link_failed (not_found from_id)
    else if not (memory_exists s to_id)
    then link_failed (not_found to_id)
    else let s' = upsert_crossref_edge from_id to_id kind s in
      linked (
        if bidirectional
        then upsert_crossref_edge to_id from_id (reverse_edge_type kind) s'
        else s')

-- One direction of `remove_link`: written back only when an edge was dropped.
unfoldable pub drop_edges : ℕ → ℕ → Store → Store
drop_edges i peer s =
    let kept = keep_if (λ r. not (nat_eq r.peer peer)) (get_crossrefs s i) in
    if ltb (length kept) (length (get_crossrefs s i))
    then record s { crossrefs = insert i kept s.crossrefs }
    else s

unfoldable pub remove_link : ℕ → ℕ → Bool → Store → Store
unfolding drop_edges
remove_link from_id to_id bidirectional s =
    let s' = drop_edges from_id to_id s in if bidirectional then drop_edges to_id from_id s' else s'
