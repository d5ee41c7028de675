-- ===== src/Lineage/Levels.antt =====
-- How many levels `_walk_chain` of memora/storage.py needs.
use memora.Prelude.{
  ℕ, zero, suc, ◌+◌, ◌≤◌, ◌<◌, true, false, not, List, [], ◌∷◌, ◌++◌, ◌≡◌, refl, ap, sym, ◌∙◌,
  arith, contains, contains-append, nat_eq, inl, inr, Bool-cases, subst, nat_eq_iff, length,
  length-append, keep_if, List-cases,
}
use memora.Lineage.Store.{Edge}
use memora.Lineage.Walk.{
  Readers, Direction, Walk, takes, visit, visit_refs, visit_queue, walk_levels, walk_from,
}

-- The rows that a walk has not seen yet.
abbrev unseen : List ℕ → List ℕ → ℕ
unseen seen rows = length (keep_if (λ i. not (contains seen i)) rows)

unseen_less : (seen rows : List ℕ) (a : ℕ) → unseen (seen ++ a ∷ []) rows ≤ unseen seen rows
unseen_less seen [] a = omega arith
unseen_less seen (x ∷ rows) a = rw contains-append (ground (arith, unseen_less seen rows a))

unseen_drops :
    (seen rows : List ℕ) (a : ℕ)
    → contains rows a ≡ true
    → contains seen a ≡ false
    → suc (unseen (seen ++ a ∷ []) rows) ≤ unseen seen rows
unseen_drops seen [] a c n = ground arith
unseen_drops seen (x ∷ rows) a c n = elim (Bool-cases (nat_eq x a)) [
  | inl same ↦
      let new : contains seen x ≡ false =
        subst (λ k. contains seen k ≡ false) (sym ((nat_eq_iff x a).0 same)) n in
      rw contains-append
        (ground (arith, new, unseen_less seen rows a, nat_eq_iff x a, nat_eq_iff a x))
  | inr other ↦ rw contains-append (
      ground (
        arith,
        unseen_drops seen rows a (ground (arith, c, other)) n,
        other,
        nat_eq_iff a x,
        nat_eq_iff x a,
      ))
]

unseen_bound : (seen rows : List ℕ) → unseen seen rows ≤ length rows
unseen_bound seen [] = omega arith
unseen_bound seen (x ∷ rows) = ground (arith, unseen_bound seen rows)

module _ (r : Readers) (d : Direction) (rows : List ℕ)
    (listed : (i : ℕ) → r.exists i ≡ true → contains rows i ≡ true) where
  abbrev left_over : Walk → ℕ
  left_over w = unseen w.visited rows + length w.next_queue

  visit_spends : (w : Walk) (ref : Edge) → left_over (visit r d w ref) ≤ left_over w
  unfolding visit takes
  visit_spends w ref = elim (Bool-cases (takes r d w.visited ref)) [
    | inl taken ↦
        let fewer =
          unseen_drops w.visited rows ref.peer (listed ref.peer (ground (arith, taken)))
            (ground (arith, taken)) in
        rw taken (rw length-append (omega (arith, fewer)))
    | inr left ↦ rw left (omega arith)
  ]

  visit_refs_spends :
      (w : Walk) (refs : List Edge) → left_over (visit_refs r d w refs) ≤ left_over w
  unfolding visit_refs
  visit_refs_spends w [] = omega arith
  visit_refs_spends w (ref ∷ refs) =
      omega (arith, visit_spends w ref, visit_refs_spends (visit r d w ref) refs)

  visit_queue_spends :
      (w : Walk) (queue : List ℕ) → left_over (visit_queue r d w queue) ≤ left_over w
  unfolding visit_queue
  visit_queue_spends w [] = omega arith
  visit_queue_spends w (q ∷ queue) = omega (
    arith,
    visit_refs_spends w (r.crossrefs q),
    visit_queue_spends (visit_refs r d w (r.crossrefs q)) queue,
  )

  walk_levels_done : (n : ℕ) (w : Walk) → (walk_levels r d n w []).next_queue ≡ []
  unfolding walk_levels
  walk_levels_done zero w = refl
  walk_levels_done (suc n) w = refl

  walk_levels_finish :
      (n : ℕ) (w : Walk) (queue : List ℕ)
      → unseen w.visited rows < n
      → (walk_levels r d n w queue).next_queue ≡ []
  unfolding walk_levels
  walk_levels_finish zero w queue h = ground (arith, h)
  walk_levels_finish (suc n) w [] h = refl
  walk_levels_finish (suc n) w (q ∷ queue) h =
      let w' = visit_queue r d (record w { next_queue = [] }) (q ∷ queue) in
      let spent = visit_queue_spends (record w { next_queue = [] }) (q ∷ queue) in
      elim (List-cases w'.next_queue) [
        | inl none_new ↦
            ap (λ l. (walk_levels r d n w' l).next_queue) none_new ∙ walk_levels_done n w'
        | inr (x, more, some_new) ↦
            let size : length w'.next_queue ≡ suc (length more) = ap length some_new in
            walk_levels_finish n w' w'.next_queue (omega (arith, h, spent, size))
      ]

  pub walk_from_finishes : (n i : ℕ) → length rows < n → (walk_from r d n i).next_queue ≡ []
  unfolding walk_from
  walk_from_finishes n i h =
      walk_levels_finish n (record { visited = i ∷ []; chain = i ∷ []; next_queue = [] }) (i ∷ [])
        (omega (arith, h, unseen_bound (i ∷ []) rows))
