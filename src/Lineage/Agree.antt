-- ===== src/Lineage/Agree.antt =====
-- When two readers make `_walk_chain` and `_resolve_latest` of memora/storage.py answer alike.
use memora.Prelude.{
  ℕ, zero, suc, Bool, true, not, ◌&&◌, List, [], ◌∷◌, ◌≡◌, refl, ap, ◌∙◌, contains, any, nat_eq,
  inl, inr, Bool-cases, All, keep_if,
}
use memora.Lineage.Store.{Edge}
use memora.Lineage.Walk.{
  Readers, Direction, follows, forward, Walk, takes, visit, visit_refs, visit_queue, walk_levels,
  walk_from, walk_chain, max_chain_depth, has_successor, is_superseded_by,
}
use memora.Lineage.WalkLaws.{Gathers, visit_queue-Gathers, walk_from-All}
use memora.Lineage.Latest.{leaves_of, resolve_latest}

-- Two readers, and ids at which they read the same edges and agree on the peers of these.
module _ (r t : Readers) (d : Direction) (P : ℕ → Type 0)
    (same_refs : (j : ℕ) → P j → t.crossrefs j ≡ r.crossrefs j)
    (same_exists : (j : ℕ)
      → P j
      → All
          (λ (ref : Edge). follows d ref.kind ≡ true → t.exists ref.peer ≡ r.exists ref.peer)
          (r.crossrefs j))
    (carries : (j : ℕ)
      → P j
      → All
          (λ (ref : Edge). follows d ref.kind ≡ true → r.exists ref.peer ≡ true → P ref.peer)
          (r.crossrefs j)) where
  takes_agree :
      (seen : List ℕ) (ref : Edge)
      → (follows d ref.kind ≡ true → t.exists ref.peer ≡ r.exists ref.peer)
      → takes t d seen ref ≡ takes r d seen ref
  unfolding takes
  takes_agree seen ref h = elim (Bool-cases (follows d ref.kind)) [
    | inl follows_it ↦ rw (h follows_it) refl
    | inr other ↦ rw other refl
  ]

  visit_refs_agree :
      (w : Walk) (refs : List Edge)
      → All (λ (ref : Edge). follows d ref.kind ≡ true → t.exists ref.peer ≡ r.exists ref.peer) refs
      → visit_refs t d w refs ≡ visit_refs r d w refs
  unfolding visit_refs visit
  visit_refs_agree w [] h = refl
  visit_refs_agree w (ref ∷ refs) h =
      rw (takes_agree w.visited ref h.0) (visit_refs_agree (visit r d w ref) refs h.1)

  visit_queue_agree :
      (w : Walk) (queue : List ℕ) → All P queue → visit_queue t d w queue ≡ visit_queue r d w queue
  unfolding visit_queue
  visit_queue_agree w [] h = refl
  visit_queue_agree w (q ∷ queue) h =
      ap (λ refs. visit_queue t d (visit_refs t d w refs) queue) (same_refs q h.0)
      ∙ ap (λ u. visit_queue t d u queue) (visit_refs_agree w (r.crossrefs q) (same_exists q h.0))
      ∙ visit_queue_agree (visit_refs r d w (r.crossrefs q)) queue h.1

  walk_levels_agree :
      (n : ℕ) (w : Walk) (queue : List ℕ)
      → All P queue
      → Gathers r d P carries w
      → walk_levels t d n w queue ≡ walk_levels r d n w queue
  unfolding walk_levels
  walk_levels_agree zero w queue h g = refl
  walk_levels_agree (suc n) w [] h g = refl
  walk_levels_agree (suc n) w (q ∷ queue) h g =
      let cleared : Gathers r d P carries (record w { next_queue = [] }) = record {
        in_chain = g.in_chain;
        in_next = tt;
      } in
      let g' =
        visit_queue-Gathers r d P carries (record w { next_queue = [] }) (q ∷ queue) h cleared in
      ap (λ u. walk_levels t d n u u.next_queue)
        (visit_queue_agree (record w { next_queue = [] }) (q ∷ queue) h)
      ∙ walk_levels_agree n _ _ g'.in_next g'

  pub walk_chain_agree : (i : ℕ) → P i → walk_chain t d i ≡ walk_chain r d i
  unfolding walk_chain walk_from
  walk_chain_agree i p =
      ap (λ w. w.chain)
        (walk_levels_agree max_chain_depth
          (record { visited = i ∷ []; chain = i ∷ []; next_queue = [] }) (i ∷ []) (p, tt)
          (record { in_chain = (p, tt); in_next = tt }))

-- Where two tests agree on a list, they keep the same of it.
pub keep_if_agree :
    (p q : ℕ → Bool) (xs : List ℕ) → All (λ i. p i ≡ q i) xs → keep_if p xs ≡ keep_if q xs
keep_if_agree p q [] h = refl
keep_if_agree p q (x ∷ xs) h = rw h.0 (rw (keep_if_agree p q xs h.1) refl)

module _ (r t : Readers) (set : List ℕ) (i : ℕ) where
  any_agree :
      (refs : List Edge)
      → All
          (λ (ref : Edge). follows forward ref.kind ≡ true → t.exists ref.peer ≡ r.exists ref.peer)
          refs
      → any
          (λ (ref : Edge).
            is_superseded_by ref.kind
            && (contains set ref.peer && (not (nat_eq ref.peer i) && t.exists ref.peer)))
          refs
        ≡ any
            (λ (ref : Edge).
              is_superseded_by ref.kind
              && (contains set ref.peer && (not (nat_eq ref.peer i) && r.exists ref.peer)))
            refs
  any_agree [] h = refl
  any_agree (ref ∷ refs) h = elim (Bool-cases (is_superseded_by ref.kind)) [
    | inl link ↦ rw (h.0 link) (rw (any_agree refs h.1) refl)
    | inr other ↦ rw other (any_agree refs h.1)
  ]

module _ (r t : Readers) (P : ℕ → Type 0)
    (same_refs : (j : ℕ) → P j → t.crossrefs j ≡ r.crossrefs j)
    (same_exists : (j : ℕ)
      → P j
      → All
          (λ (ref : Edge). follows forward ref.kind ≡ true → t.exists ref.peer ≡ r.exists ref.peer)
          (r.crossrefs j))
    (carries : (j : ℕ)
      → P j
      → All
          (λ (ref : Edge). follows forward ref.kind ≡ true → r.exists ref.peer ≡ true → P ref.peer)
          (r.crossrefs j)) where
  has_successor_agree :
      (set xs : List ℕ)
      → All P xs
      → All (λ i. not (has_successor t set i) ≡ not (has_successor r set i)) xs
  unfolding has_successor
  has_successor_agree set [] h = tt
  has_successor_agree set (x ∷ xs) h = (
    rw (same_refs x h.0) (rw (any_agree r t set x (r.crossrefs x) (same_exists x h.0)) refl),
    has_successor_agree set xs h.1,
  )

  leaves_agree : (xs : List ℕ) → All P xs → leaves_of t xs ≡ leaves_of r xs
  unfolding leaves_of
  leaves_agree xs h =
      keep_if_agree (λ m. not (has_successor t xs m)) (λ m. not (has_successor r xs m)) xs
        (has_successor_agree xs xs h)

  -- The latest versions of an id are the same for both readers.
  pub resolve_latest_agree :
      (retired : ℕ → Bool) (i : ℕ) → P i → resolve_latest t retired i ≡ resolve_latest r retired i
  unfolding resolve_latest walk_chain
  resolve_latest_agree retired i p =
      let chain = walk_chain_agree r t forward P same_refs same_exists carries i p in
      let members = walk_from-All r forward P carries max_chain_depth i p in
      rw chain (rw (leaves_agree (walk_chain r forward i) members) refl)
