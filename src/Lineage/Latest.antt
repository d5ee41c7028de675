-- ===== src/Lineage/Latest.antt =====
-- `_resolve_latest`, `_component_live_leaves`, `_resolve_absorb_supersedes_target` and
-- `_heal_supersession_fork` of memora/storage.py.
use memora.Prelude.{
  ℕ, zero, suc, Option, none, some, Bool, true, false, not, ◌&&◌, ◌||◌, List, [], ◌∷◌, ◌++◌,
  contains, any, all, keep_if, nat_eq, max, if◌then◌else◌,
}
use memora.Lineage.Store.{supersedes, Store, is_tombstoned_id, linked, link_failed, add_link}
use memora.Lineage.View.{View, view_readers, load_supersession_view}
use memora.Lineage.Walk.{
  Readers, store_readers, forward, walk_chain, has_successor, get_full_history, sorted,
}

-- max(ids)
unfoldable pub maximum : List ℕ → ℕ
maximum [] = 0
maximum (x ∷ xs) = max x (maximum xs)

-- The nodes of a list with no successor in it, in order.
unfoldable pub leaves_of : Readers → List ℕ → List ℕ
leaves_of r ids = keep_if (λ m. not (has_successor r ids m)) ids

abbrev pub live_or_max : (ℕ → Bool) → List ℕ → List ℕ → List ℕ
live_or_max retired ids [] = maximum ids ∷ []
live_or_max retired ids (l ∷ ls) = keep_if (λ m. not (retired m)) (l ∷ ls)

-- `_resolve_latest`; `retired` is the test of `_is_tombstoned_id`.
unfoldable pub resolve_latest : Readers → (ℕ → Bool) → ℕ → List ℕ
resolve_latest r retired i =
    if retired i
    then []
    else let ids = walk_chain r forward i in live_or_max retired ids (leaves_of r ids)

abbrev component_leaves : (ℕ → Bool) → List ℕ → List ℕ → List ℕ × Bool
component_leaves retired component [] = (maximum component ∷ [], true)
component_leaves retired component (l ∷ ls) =
    (sorted (keep_if (λ m. not (retired m)) (l ∷ ls)), false)

unfoldable pub leaves_in : Readers → (ℕ → Bool) → ℕ → List ℕ → List ℕ × Bool
leaves_in r retired i [] = (i ∷ [], false)
leaves_in r retired i (c ∷ component) =
    if any retired (c ∷ component)
    then ([], false)
    else component_leaves retired (c ∷ component) (leaves_of r (c ∷ component))

-- `_component_live_leaves`: the leaves, and whether the component is a cycle.
unfoldable pub component_live_leaves : Readers → (ℕ → Bool) → ℕ → List ℕ × Bool
unfolding leaves_in
component_live_leaves r retired i =
    if retired i then ([], false) else leaves_in r retired i (get_full_history r i)

pub record AbsorbTarget : Type 0 where
  pub targets : List ℕ
  pub collapsible : Bool
  pub cycle : Bool
  pub tombstoned : Bool

abbrev nonempty : List ℕ → Bool
nonempty [] = false
nonempty (x ∷ xs) = true

target_of : Readers → (ℕ → Bool) → ℕ → List ℕ × Bool → AbsorbTarget
target_of r retired i (leaves, true) =
    let component = get_full_history r i in
    if nonempty component && all retired component
    then record { targets = []; collapsible = false; cycle = true; tombstoned = true }
    else record { targets = leaves; collapsible = false; cycle = true; tombstoned = false }
target_of r retired i ([], false) = record {
  targets = [];
  collapsible = false;
  cycle = false;
  tombstoned = true;
}
target_of r retired i (l ∷ ls, false) = record {
  targets = l ∷ ls;
  collapsible = true;
  cycle = false;
  tombstoned = false;
}

-- `_resolve_absorb_supersedes_target`
unfoldable pub resolve_absorb_target : Readers → (ℕ → Bool) → ℕ → AbsorbTarget
unfolding target_of
resolve_absorb_target r retired i = target_of r retired i (component_live_leaves r retired i)

-- `_component_live_leaves` without a view: it loads one, and reads the tables past the view's bounds.
abbrev pub live_leaves_by : Store → ℕ → Option View → List ℕ × Bool
live_leaves_by s i none = component_live_leaves (store_readers s) (is_tombstoned_id s) i
live_leaves_by s i (some view) = component_live_leaves (view_readers view) (contains view.retired) i

unfoldable pub live_leaves : Store → ℕ → List ℕ × Bool
unfolding component_live_leaves
live_leaves s i = live_leaves_by s i (load_supersession_view s (i ∷ []))

-- What `_heal_supersession_fork` answers: the leaves it keeps, an error of `add_link`, or that the
-- rounds did not converge.
pub data Healed : Type 0 where
  healed : List ℕ → Store → Healed
  not_converged : List ℕ → Healed
  heal_failed : Healed

unfoldable pub contenders_of : List ℕ → List ℕ → List ℕ
contenders_of kept leaves = keep_if (λ l. not (contains kept l)) leaves

pub data Collapsed : Type 0 where
  collapsed : List ℕ → Store → Collapsed
  collapse_failed : Collapsed

-- No list of several.
abbrev pub at_most_one : List ℕ → Bool
at_most_one [] = true
at_most_one (l ∷ []) = true
at_most_one (l ∷ m ∷ ls) = false

module _ (may_collapse : ℕ → ℕ → Bool) where
  -- The loop over the losers of one round.
  unfoldable pub collapse : ℕ → List ℕ → List ℕ → Store → Collapsed
  collapse winner [] kept s = collapsed kept s
  collapse winner (loser ∷ rest) kept s =
      if nat_eq loser winner
      then collapse winner rest kept s
      else if may_collapse winner loser
      then elim (add_link winner loser supersedes true s) [
        | linked s' ↦ collapse winner rest kept s'
        | link_failed e ↦ collapse_failed
      ]
      else collapse winner rest (kept ++ loser ∷ []) s

  -- The rounds that are left; `_FORK_HEAL_RETRIES` of them, then the check that may raise.
  unfoldable pub heal_rounds : ℕ → ℕ → List ℕ → Store → Healed
  unfolding contenders_of
  heal_rounds zero i kept s =
      let found = live_leaves s i in
      let contenders = contenders_of kept found.0 in
      if not found.1 && not (at_most_one contenders)
      then not_converged contenders
      else healed kept s
  heal_rounds (suc rounds) i kept s =
      let found = live_leaves s i in
      let contenders = contenders_of kept found.0 in
      elim (found.1 || at_most_one contenders) [
        | true ↦ healed kept s
        | false ↦ elim (collapse (maximum contenders) contenders kept s) [
          | collapsed kept' s' ↦ heal_rounds rounds i kept' s'
          | collapse_failed ↦ heal_failed
        ]
      ]

  unfoldable pub heal_supersession_fork : ℕ → List ℕ → Store → Healed
  unfolding heal_rounds
  heal_supersession_fork i keep s = heal_rounds 8 i keep s
