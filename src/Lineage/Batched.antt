-- ===== src/Lineage/Batched.antt =====
-- The batched follow modes of memora/storage.py against the row-by-row ones.
use memora.Prelude.{
  ℕ, Bool, true, false, not, ◌&&◌, ◌||◌, List, [], ◌∷◌, ◌≡◌, refl, ap, sym, ◌∙◌, arith, contains,
  any, map, contains-append, ◌++◌, inl, inr, Bool-cases, Option-cases, All, All-mono, keep_if,
}
use memora.Lineage.Store.{Edge, Store, get_crossrefs, has_row, memory_exists, retired_memory_ids}
use memora.Lineage.Walk.{
  store_readers, is_superseded_by, forward, follows, walk_chain, max_chain_depth, add_new,
}
use memora.Lineage.View.{View, read_crossrefs, load_supersession_view, view_readers}
use memora.Lineage.Sets.{contains-keep_if, contains-add_new, All-from_contains}
use memora.Lineage.WalkLaws.{walk_from-All}
use memora.Lineage.Agree.{resolve_latest_agree}
use memora.Lineage.ViewLaws.{LeadsInto, IsView, load_supersession_view-IsView}
use memora.Lineage.Latest.{resolve_latest}
use memora.Lineage.Resolve.{resolve_latest_self, retired_unresolved, resolve_latest_retired}
use memora.Lineage.Follow.{
  is_superseded, superseded_ids_batch, plan_latest, add_versions, follow_latest_legacy,
  leaves_by_id, walk_seeds, follow_latest, claims, batched, shown, follow_status,
  follow_status_legacy, superseded_row, retired_row,
}

-- No row is held back by an import, so the tests that look at this and those that do not agree.
abbrev pub HasNoPending : Store → Type 0
HasNoPending s = (i : ℕ) → memory_exists s i ≡ has_row s i

any-claims :
    (p : ℕ → Bool) (refs : List Edge)
    → any p (map (λ (ref : Edge). ref.peer) (keep_if (λ ref. is_superseded_by ref.kind) refs))
      ≡ any (λ (ref : Edge). is_superseded_by ref.kind && p ref.peer) refs
any-claims p [] = refl
any-claims p (ref ∷ refs) = elim (Bool-cases (is_superseded_by ref.kind)) [
  | inl link ↦ rw link (rw (any-claims p refs) refl)
  | inr other ↦ rw other (any-claims p refs)
]

any_same :
    (p q : ℕ → Bool) (refs : List Edge)
    → ((i : ℕ) → p i ≡ q i)
    → any (λ (ref : Edge). is_superseded_by ref.kind && p ref.peer) refs
      ≡ any (λ (ref : Edge). is_superseded_by ref.kind && q ref.peer) refs
any_same p q [] h = refl
any_same p q (ref ∷ refs) h = rw (h ref.peer) (rw (any_same p q refs h) refl)

keep_if_same : (p q : ℕ → Bool) (xs : List ℕ) → ((i : ℕ) → p i ≡ q i) → keep_if p xs ≡ keep_if q xs
keep_if_same p q [] h = refl
keep_if_same p q (x ∷ xs) h = rw (h x) (rw (keep_if_same p q xs h) refl)

-- The one statement of `_follow_status` finds the superseded and the retired ids that the batched
-- queries of the legacy path find, pending rows or not.
pub follow_status_is_legacy :
    (s : Store) (ids : List ℕ) → follow_status s ids ≡ follow_status_legacy s ids
unfolding follow_status follow_status_legacy superseded_ids_batch claims retired_memory_ids
follow_status_is_legacy s ids =
    rw
      (keep_if_same (superseded_row s) (λ j. any (λ peer. has_row s peer) (claims s j))
        (add_new [] ids) (λ i. sym (any-claims (has_row s) (get_crossrefs s i))))
      (rw
        (keep_if_same (retired_row s) (λ j. contains (s.components ++ s.tombstones) j)
          (add_new [] ids) (λ i. sym (contains-append s.components s.tombstones i)))
        refl)

-- The statement finds exactly the results that `_is_superseded` finds, when no row is pending.
pub follow_status-is_superseded :
    (s : Store) (ids : List ℕ) (i : ℕ)
    → HasNoPending s
    → contains (follow_status s ids).0 i ≡ (is_superseded s i && contains ids i)
unfolding follow_status is_superseded
follow_status-is_superseded s ids i h =
    contains-keep_if (superseded_row s) (add_new [] ids) i
    ∙ ap (λ b. superseded_row s i && b) (contains-add_new [] ids i)
    ∙ ap (λ b. b && contains ids i)
        (any_same (has_row s) (memory_exists s) (get_crossrefs s i) (λ j. sym (h j)))

pub follow_status-retired :
    (s : Store) (ids : List ℕ) (i : ℕ)
    → contains (follow_status s ids).1 i ≡ (contains (retired_memory_ids s) i && contains ids i)
unfolding follow_status retired_memory_ids
follow_status-retired s ids i =
    contains-keep_if (retired_row s) (add_new [] ids) i
    ∙ ap (λ b. retired_row s i && b) (contains-add_new [] ids i)
    ∙ ap (λ b. b && contains ids i) (sym (contains-append s.components s.tombstones i))

plan_latest_agree :
    (f g : ℕ → List ℕ) (results seen : List ℕ) (plan : List (ℕ × ℕ))
    → All (λ i. f i ≡ g i) results
    → plan_latest f results seen plan ≡ plan_latest g results seen plan
unfolding plan_latest
plan_latest_agree f g [] seen plan h = refl
plan_latest_agree f g (x ∷ xs) seen plan h = rw h.0 (
    plan_latest_agree f g xs (add_versions x (g x) seen plan).0 (add_versions x (g x) seen plan).1
      h.1)

module _ (s : Store) (settled : HasNoPending s) (seeds : List ℕ) (v : View)
    (view : IsView s seeds v) where
  -- The ids that a walk through the view may stand at.
  abbrev InView : ℕ → Type 0
  InView j = (contains v.checked j ≡ true) × ((has_row s j || contains v.seeds j) ≡ true)

  same_refs : (j : ℕ) → InView j → (view_readers v).crossrefs j ≡ get_crossrefs s j
  unfolding view_readers read_crossrefs
  same_refs j h = rw h.0 (rw view.of_store (rw h.1 refl))

  leads : (j : ℕ) → InView j → LeadsInto v.checked (get_crossrefs s j)
  unfolding read_crossrefs
  leads j h = rw h.1 at (view.read.shut j h.0)

  same_exists :
      (j : ℕ)
      → InView j
      → All
          (λ (ref : Edge).
            follows forward ref.kind ≡ true
            → (view_readers v).exists ref.peer ≡ (store_readers s).exists ref.peer)
          ((store_readers s).crossrefs j)
  unfolding view_readers store_readers
  same_exists j h =
      All-mono
        (λ ref into link.
          rw (into (ground (arith, link))) (rw view.of_store (sym (settled ref.peer))))
        (get_crossrefs s j) (leads j h)

  carries :
      (j : ℕ)
      → InView j
      → All
          (λ (ref : Edge).
            follows forward ref.kind ≡ true
            → (store_readers s).exists ref.peer ≡ true
            → InView ref.peer)
          ((store_readers s).crossrefs j)
  unfolding store_readers
  carries j h =
      All-mono
        (λ ref into link there.
          (into (ground (arith, link)), ground (arith, there, settled ref.peer)))
        (get_crossrefs s j) (leads j h)

  retired_alike :
      (j : ℕ)
      → contains v.checked j ≡ true
      → contains v.retired j ≡ contains (retired_memory_ids s) j
  retired_alike j h =
      rw view.retires
        (contains-keep_if (λ i. contains (retired_memory_ids s) i) v.checked j ∙ ground (arith, h))

  -- What the view resolves a seed to is what the tables resolve it to.
  pub view_resolves :
      (i : ℕ)
      → contains seeds i ≡ true
      → resolve_latest (view_readers v) (contains v.retired) i
        ≡ resolve_latest (store_readers s) (contains (retired_memory_ids s)) i
  unfolding walk_chain store_readers get_crossrefs
  view_resolves i h =
      let seed : contains v.seeds i ≡ true = view.seeded i ∙ h in
      let known : contains v.checked i ≡ true = view.read.within i seed in
      let here : InView i = (known, ground (arith, seed)) in
      let members = walk_from-All (store_readers s) forward InView carries max_chain_depth i here in
      resolve_latest_agree (store_readers s) (view_readers v) InView same_refs same_exists carries
        (contains v.retired) i here
      ∙ resolve_latest_retired (store_readers s) (contains v.retired)
          (contains (retired_memory_ids s)) i (retired_alike i known)
          (All-mono (λ m p. ap not (retired_alike m p.0)) (walk_chain (store_readers s) forward i)
            members)

-- The batched latest mode resolves each result as the row-by-row mode does.
resolves_alike :
    (s : Store) (settled : HasNoPending s) (results : List ℕ) (v : View)
    → IsView s (walk_seeds (follow_status s results).0 (follow_status s results).1 results) v
    → (i : ℕ) → contains results i ≡ true
    → leaves_by_id v (follow_status s results).0 (follow_status s results).1 i
      ≡ resolve_latest (store_readers s) (contains (retired_memory_ids s)) i
unfolding leaves_by_id walk_seeds is_superseded store_readers
resolves_alike s settled results v view i h =
    let superseded = (follow_status s results).0 in
    let retired_here = (follow_status s results).1 in
    let retired = retired_memory_ids s in
    let found = follow_status-is_superseded s results i settled in
    let alike : contains retired_here i ≡ contains retired i =
      ground (arith, follow_status-retired s results i, h) in
    elim (Bool-cases (contains retired i)) [
      | inl gone ↦
          rw alike (rw gone (sym (retired_unresolved (store_readers s) (contains retired) i gone)))
      | inr live ↦ elim (Bool-cases (contains superseded i)) [
        | inl old ↦ rw alike (
            rw live (
              rw old (
                view_resolves s settled _ v view i (
                  contains-keep_if (λ j. contains superseded j && not (contains retired_here j))
                    (add_new [] results) i
                  ∙ ground (arith, old, live, alike, contains-add_new [] results i, h)))))
        | inr current ↦
            let idle : is_superseded s i ≡ false = ground (arith, found, current, h) in
            rw alike (
              rw live (
                rw current
                  (sym (resolve_latest_self (store_readers s) (contains retired) i idle live))))
      ]
    ]

-- follow="latest" answers the same batched and row by row, when no row is pending.
pub follow_latest_is_legacy :
    (s : Store) (seen results : List ℕ)
    → HasNoPending s
    → follow_latest s seen results ≡ follow_latest_legacy s seen results
unfolding follow_latest follow_latest_legacy batched
follow_latest_is_legacy s seen results settled =
    let superseded = (follow_status s results).0 in
    let retired = (follow_status s results).1 in
    elim (Option-cases (load_supersession_view s (walk_seeds superseded retired results))) [
      | inl past ↦ rw past refl
      | inr (v, got) ↦
          let view =
            load_supersession_view-IsView s (walk_seeds superseded retired results) v got in
          rw got (
            ap (λ p. shown s p.1)
              (plan_latest_agree (leaves_by_id v superseded retired)
                (resolve_latest (store_readers s) (contains (retired_memory_ids s))) results seen []
                (All-from_contains _ results (λ i h. resolves_alike s settled results v view i h))))
    ]
