-- ===== src/Lineage/View.antt =====
-- `_load_supersession_view` of memora/storage.py: the neighborhood of some seeds along both
-- supersession edges, read level by level.
use memora.Prelude.{
  ℕ, zero, suc, ◌+◌, Bool, not, ◌&&◌, ◌||◌, Option, none, some, List, [], ◌∷◌, ◌++◌, contains,
  keep_if, ltb, length, if◌then◌else◌,
}
use memora.Lineage.Store.{EdgeType, Edge, Store, get_crossrefs, has_row, retired_memory_ids}
use memora.Lineage.Walk.{Readers, is_supersedes, is_superseded_by, add_new}

-- `_SupersessionView`. `checked` has every id that was read; `seeds` those read whether or not their
-- row is there.
pub record View : Type 0 where
  pub store : Store
  pub seeds : List ℕ
  pub checked : List ℕ
  pub retired : List ℕ

abbrev pub is_supersession : EdgeType → Bool
is_supersession k = is_supersedes k || is_superseded_by k

module _ (s : Store) (seeds : List ℕ) where
  -- The crossrefs that the view holds for an id that it read: a seed's even when its row is gone.
  unfoldable pub read_crossrefs : ℕ → List Edge
  read_crossrefs i = if has_row s i || contains seeds i then get_crossrefs s i else []

  -- The ids that one frontier node leads to outside the set.
  unfoldable pub new_peers : List ℕ → List Edge → List ℕ
  new_peers checked [] = []
  new_peers checked (ref ∷ refs) =
      let rest = new_peers checked refs in
      if is_supersession ref.kind && not (contains checked ref.peer) then ref.peer ∷ rest else rest

  unfoldable pub next_frontier : List ℕ → List ℕ → List ℕ
  next_frontier checked [] = []
  next_frontier checked (i ∷ frontier) =
      new_peers checked (read_crossrefs i) ++ next_frontier checked frontier

  -- The `while frontier` loop with the levels that are left, and the bound on the nodes.
  unfoldable pub view_levels : ℕ → List ℕ → List ℕ → Option (List ℕ)
  view_levels levels checked [] = some checked
  view_levels zero checked (f ∷ frontier) = none
  view_levels (suc levels) checked (f ∷ frontier) =
      let checked' = checked ++ f ∷ frontier in
      let rest = view_levels levels checked' (add_new [] (next_frontier checked' (f ∷ frontier))) in
      if ltb 1000 (length checked + length (f ∷ frontier)) then none else rest

abbrev make_view : Store → List ℕ → Option (List ℕ) → Option View
make_view s seeds none = none
make_view s seeds (some checked) = some (record {
  store = s;
  seeds = seeds;
  checked = checked;
  retired = keep_if (λ i. contains (retired_memory_ids s) i) checked;
})

unfoldable pub load_supersession_view : Store → List ℕ → Option View
load_supersession_view s seeds =
    make_view s (add_new [] seeds) (view_levels s (add_new [] seeds) 400 [] (add_new [] seeds))

-- `crossrefs` and `exists` of the view: nothing outside what was read.
unfoldable pub view_readers : View → Readers
view_readers v = record {
  crossrefs = λ i. if contains v.checked i then read_crossrefs v.store v.seeds i else [];
  exists = λ i. contains v.checked i && has_row v.store i;
}
