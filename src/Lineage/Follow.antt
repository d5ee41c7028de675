-- ===== src/Lineage/Follow.antt =====
-- `_is_superseded`, `_superseded_ids_batch` and `apply_follow` of memora/storage.py, on the ids of the
-- results.
use memora.Prelude.{
  ℕ, Bool, not, ◌&&◌, ◌||◌, Option, none, some, List, [], ◌∷◌, ◌++◌, contains, any, keep_if, nat_eq,
  map, if◌then◌else◌,
}
use memora.Lineage.Store.{Edge, Store, get_crossrefs, memory_exists, has_row, retired_memory_ids}
use memora.Lineage.Walk.{store_readers, is_superseded_by, get_full_history, add_new}
use memora.Lineage.View.{View, view_readers, load_supersession_view}
use memora.Lineage.Latest.{resolve_latest}

-- `_is_superseded`
unfoldable pub is_superseded : Store → ℕ → Bool
is_superseded s i =
    any (λ ref. is_superseded_by ref.kind && memory_exists s ref.peer) (get_crossrefs s i)

-- The claims that `_superseded_ids_batch` collects for one candidate.
unfoldable pub claims : Store → ℕ → List ℕ
claims s i =
    map (λ (ref : Edge). ref.peer) (keep_if (λ ref. is_superseded_by ref.kind) (get_crossrefs s i))

-- `_superseded_ids_batch`
unfoldable pub superseded_ids_batch : Store → List ℕ → List ℕ
unfolding claims
superseded_ids_batch s ids =
    keep_if (λ i. any (λ peer. has_row s peer) (claims s i)) (add_new [] ids)

-- What the statement of `_follow_status` finds of one id: an edge to a row that is there, and a row of
-- a tombstone table.
abbrev pub superseded_row : Store → ℕ → Bool
superseded_row s i =
    any (λ (ref : Edge). is_superseded_by ref.kind && has_row s ref.peer) (get_crossrefs s i)

abbrev pub retired_row : Store → ℕ → Bool
retired_row s i = contains s.components i || contains s.tombstones i

-- `_follow_status`, the superseded and the retired ids; with whole numbers as ids none is unsafe.
unfoldable pub follow_status : Store → List ℕ → List ℕ × List ℕ
follow_status s ids =
    (keep_if (superseded_row s) (add_new [] ids), keep_if (retired_row s) (add_new [] ids))

-- `_follow_status_legacy`
unfoldable pub follow_status_legacy : Store → List ℕ → List ℕ × List ℕ
unfolding superseded_ids_batch
follow_status_legacy s ids =
    (superseded_ids_batch s ids, keep_if (λ i. contains (retired_memory_ids s) i) (add_new [] ids))

-- follow="active"
unfoldable pub follow_active : Store → List ℕ → List ℕ
unfolding follow_status
follow_active s results =
    let (superseded, retired) = follow_status s results in
    keep_if (λ i. not (contains superseded i) && not (contains retired i)) results

-- The pairs (result, latest version) that are not yet seen, and the versions seen.
unfoldable pub add_versions : ℕ → List ℕ → List ℕ → List (ℕ × ℕ) → List ℕ × List (ℕ × ℕ)
add_versions item [] seen plan = (seen, plan)
add_versions item (l ∷ ls) seen plan =
    if contains seen l
    then add_versions item ls seen plan
    else add_versions item ls (seen ++ l ∷ []) (plan ++ (item, l) ∷ [])

-- The loop over the results, by what each resolves to.
unfoldable pub plan_latest : (ℕ → List ℕ) → List ℕ → List ℕ → List (ℕ × ℕ) → List ℕ × List (ℕ × ℕ)
unfolding add_versions
plan_latest leaves [] seen plan = (seen, plan)
plan_latest leaves (item ∷ rest) seen plan =
    let (seen', plan') = add_versions item (leaves item) seen plan in
    plan_latest leaves rest seen' plan'

-- A result that is its own version stays; another is shown if its row is found.
unfoldable pub shown : Store → List (ℕ × ℕ) → List ℕ
shown s [] = []
shown s ((item, l) ∷ rest) = if nat_eq l item || has_row s l then l ∷ shown s rest else shown s rest

-- follow="latest", row by row: `_apply_follow_latest_legacy`.
unfoldable pub follow_latest_legacy : Store → List ℕ → List ℕ → List ℕ
unfolding plan_latest shown
follow_latest_legacy s seen results =
    let retired = retired_memory_ids s in
    shown s (plan_latest (resolve_latest (store_readers s) (contains retired)) results seen []).1

-- What the batched path resolves one id to: its own id where it is not superseded, else what a walk
-- over the prefetched view finds.
unfoldable pub leaves_by_id : View → List ℕ → List ℕ → ℕ → List ℕ
leaves_by_id view superseded retired i =
    if contains retired i
    then []
    else if not (contains superseded i)
    then i ∷ []
    else resolve_latest (view_readers view) (contains view.retired) i

-- The superseded results that are not retired, each once: where the walks start.
unfoldable pub walk_seeds : List ℕ → List ℕ → List ℕ → List ℕ
walk_seeds superseded retired results =
    keep_if (λ i. contains superseded i && not (contains retired i)) (add_new [] results)

unfoldable pub batched : Store → List ℕ → List ℕ → List ℕ → List ℕ → Option View → List ℕ
batched s superseded retired seen results none = follow_latest_legacy s seen results
batched s superseded retired seen results (some view) =
    shown s (plan_latest (leaves_by_id view superseded retired) results seen []).1

-- follow="latest", batched; a neighborhood past the view's bounds is read row by row.
unfoldable pub follow_latest : Store → List ℕ → List ℕ → List ℕ
unfolding walk_seeds batched shown follow_status
follow_latest s seen results =
    let (superseded, retired) = follow_status s results in
    batched s superseded retired seen results
      (load_supersession_view s (walk_seeds superseded retired results))

-- The loop over one result's history: what is seen is skipped.
show_history : Store → ℕ → List ℕ → List ℕ → List ℕ → List ℕ × List ℕ
show_history s item [] seen out = (seen, out)
show_history s item (c ∷ chain) seen out =
    if contains seen c
    then show_history s item chain seen out
    else show_history s item chain (seen ++ c ∷ [])
        (if nat_eq c item || has_row s c then out ++ c ∷ [] else out)

-- follow="full_history": a result whose id was shown is passed over.
full_history_from : Store → List ℕ → List ℕ → List ℕ → List ℕ
full_history_from s [] seen out = out
full_history_from s (i ∷ rest) seen out =
    let (seen', out') =
      if contains seen i
      then (seen, out)
      else show_history s i (get_full_history (store_readers s) i) seen out in
    full_history_from s rest seen' out'

unfoldable pub follow_full_history : Store → List ℕ → List ℕ
unfolding full_history_from show_history
follow_full_history s results = full_history_from s results [] []
