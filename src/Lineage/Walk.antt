-- ===== src/Lineage/Walk.antt =====
-- `_walk_chain`, `_get_full_history` and the readers they use, in memora/storage.py.
use memora.Prelude.{
  ℕ, zero, suc, Bool, true, false, not, ◌&&◌, List, [], ◌∷◌, ◌++◌, contains, any, keep_if, nat_eq,
  leb, if◌then◌else◌,
}
use memora.Lineage.Store.{
  EdgeType, supersedes, superseded_by, Edge, Store, get_crossrefs, memory_exists,
}

-- `_graph_readers`: what a walk reads, from the tables or from a prefetched view.
pub record Readers : Type 0 where
  pub crossrefs : ℕ → List Edge
  pub exists : ℕ → Bool

unfoldable pub store_readers : Store → Readers
store_readers s = record { crossrefs = get_crossrefs s; exists = memory_exists s }

abbrev pub is_supersedes : EdgeType → Bool
is_supersedes supersedes = true
is_supersedes _ = false

abbrev pub is_superseded_by : EdgeType → Bool
is_superseded_by superseded_by = true
is_superseded_by _ = false

-- The test of an edge's type in a walk.
pub data Direction : Type 0 where
  forward backward : Direction

abbrev pub follows : Direction → EdgeType → Bool
follows forward k = is_superseded_by k
follows backward k = is_supersedes k

-- `visited`, `chain` and `next_queue` of `_walk_chain`.
pub record Walk : Type 0 where
  pub visited : List ℕ
  pub chain : List ℕ
  pub next_queue : List ℕ

abbrev pub max_chain_depth : ℕ
max_chain_depth = 200

-- `sorted` of distinct numbers.
unfoldable pub insert_sorted : ℕ → List ℕ → List ℕ
insert_sorted a [] = a ∷ []
insert_sorted a (b ∷ xs) = if leb a b then a ∷ b ∷ xs else b ∷ insert_sorted a xs

unfoldable pub sorted : List ℕ → List ℕ
sorted [] = []
sorted (a ∷ xs) = insert_sorted a (sorted xs)

-- A set built by adding the elements of a list in turn.
unfoldable pub add_new : List ℕ → List ℕ → List ℕ
add_new seen [] = seen
add_new seen (x ∷ xs) = add_new (if contains seen x then seen else seen ++ x ∷ []) xs

abbrev or_start : ℕ → List ℕ → List ℕ
or_start i [] = i ∷ []
or_start i (x ∷ xs) = x ∷ xs

module _ (r : Readers) (d : Direction) where
  -- The test on one entry of a crossref list, and what it adds.
  unfoldable pub takes : List ℕ → Edge → Bool
  takes visited ref = follows d ref.kind && (not (contains visited ref.peer) && r.exists ref.peer)

  unfoldable pub visit : Walk → Edge → Walk
  unfolding takes
  visit w ref =
      if takes w.visited ref
      then record {
        visited = w.visited ++ ref.peer ∷ [];
        chain = w.chain ++ ref.peer ∷ [];
        next_queue = w.next_queue ++ ref.peer ∷ [];
      }
      else w

  unfoldable pub visit_refs : Walk → List Edge → Walk
  visit_refs w [] = w
  visit_refs w (ref ∷ refs) = visit_refs (visit w ref) refs

  unfoldable pub visit_queue : Walk → List ℕ → Walk
  visit_queue w [] = w
  visit_queue w (current ∷ queue) = visit_queue (visit_refs w (r.crossrefs current)) queue

  -- The `while queue and depth < max_depth` loop, with the rounds that are left.
  unfoldable pub walk_levels : ℕ → Walk → List ℕ → Walk
  walk_levels zero w queue = record w { next_queue = queue }
  walk_levels (suc rounds) w [] = record w { next_queue = [] }
  walk_levels (suc rounds) w (q ∷ queue) =
      let w' = visit_queue (record w { next_queue = [] }) (q ∷ queue) in
      walk_levels rounds w' w'.next_queue

  unfoldable pub walk_from : ℕ → ℕ → Walk
  walk_from depth i =
      walk_levels depth (record { visited = i ∷ []; chain = i ∷ []; next_queue = [] }) (i ∷ [])

  unfoldable pub walk_chain : ℕ → List ℕ
  unfolding walk_from
  walk_chain i = (walk_from max_chain_depth i).chain

module _ (r : Readers) where
  -- An edge of the type to another node of the set that still exists.
  unfoldable pub has_successor : List ℕ → ℕ → Bool
  has_successor set i =
      any
        (λ ref.
          is_superseded_by ref.kind
          && (contains set ref.peer && (not (nat_eq ref.peer i) && r.exists ref.peer)))
        (r.crossrefs i)

  unfoldable pub has_parent : ℕ → Bool
  has_parent i =
      any (λ ref. is_supersedes ref.kind && (not (nat_eq ref.peer i) && r.exists ref.peer))
        (r.crossrefs i)

  unfoldable pub walk_roots : List ℕ → List ℕ → List ℕ
  walk_roots all_ids [] = all_ids
  walk_roots all_ids (root ∷ roots) = walk_roots (add_new all_ids (walk_chain r forward root)) roots

  unfoldable pub roots_of : ℕ → List ℕ
  roots_of i = or_start i (keep_if (λ m. not (has_parent m)) (walk_chain r backward i))

  -- `_get_full_history`
  unfoldable pub get_full_history : ℕ → List ℕ
  unfolding roots_of walk_roots
  get_full_history i = walk_roots [] (sorted (roots_of i))
