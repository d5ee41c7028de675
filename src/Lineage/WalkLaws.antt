-- ===== src/Lineage/WalkLaws.antt =====
-- What `_walk_chain` of memora/storage.py gathers: what it keeps through its loop, and when two
-- readers make it walk alike.
use memora.Prelude.{
  ℕ, zero, suc, true, List, [], ◌∷◌, ◌≡◌, refl, arith, contains, contains-append, inl, inr,
  Bool-cases, All, All-append, Memᴰ,
}
use memora.Lineage.Store.{Edge}
use memora.Lineage.Walk.{
  Readers, Direction, follows, Walk, takes, visit, visit_refs, visit_queue, walk_levels, walk_from,
  walk_chain, max_chain_depth,
}
use memora.Lineage.Reachable.{LeadsTo, start, hop}

-- A property that the edges of a walk carry from an id to the next holds of what the walk gathers.
module _ {ℓ} (r : Readers) (d : Direction) (P : ℕ → Type ℓ)
    (carries : (j : ℕ)
      → P j
      → All
          (λ (ref : Edge). follows d ref.kind ≡ true → r.exists ref.peer ≡ true → P ref.peer)
          (r.crossrefs j)) where
  pub record Gathers (w : Walk) : Type ℓ where
    pub in_chain : All P w.chain
    pub in_next : All P w.next_queue

  visit-Gathers :
      (w : Walk) (ref : Edge)
      → (follows d ref.kind ≡ true → r.exists ref.peer ≡ true → P ref.peer)
      → Gathers w
      → Gathers (visit r d w ref)
  unfolding visit takes
  visit-Gathers w ref p g = elim (Bool-cases (takes r d w.visited ref)) [
    | inl taken ↦
        let here : P ref.peer = p (ground (arith, taken)) (ground (arith, taken)) in
        rw taken (record {
          in_chain = All-append P w.chain (ref.peer ∷ []) g.in_chain (here, tt);
          in_next = All-append P w.next_queue (ref.peer ∷ []) g.in_next (here, tt);
        })
    | inr left ↦ rw left g
  ]

  visit_refs-Gathers :
      (w : Walk) (refs : List Edge)
      → All (λ (ref : Edge). follows d ref.kind ≡ true → r.exists ref.peer ≡ true → P ref.peer) refs
      → Gathers w
      → Gathers (visit_refs r d w refs)
  unfolding visit_refs
  visit_refs-Gathers w [] h g = g
  visit_refs-Gathers w (ref ∷ refs) h g =
      visit_refs-Gathers (visit r d w ref) refs h.1 (visit-Gathers w ref h.0 g)

  pub visit_queue-Gathers :
      (w : Walk) (queue : List ℕ) → All P queue → Gathers w → Gathers (visit_queue r d w queue)
  unfolding visit_queue
  visit_queue-Gathers w [] h g = g
  visit_queue-Gathers w (q ∷ queue) h g =
      visit_queue-Gathers (visit_refs r d w (r.crossrefs q)) queue h.1
        (visit_refs-Gathers w (r.crossrefs q) (carries q h.0) g)

  walk_levels-Gathers :
      (n : ℕ) (w : Walk) (queue : List ℕ)
      → All P queue
      → Gathers w
      → Gathers (walk_levels r d n w queue)
  unfolding walk_levels
  walk_levels-Gathers zero w queue h g = record { in_chain = g.in_chain; in_next = h }
  walk_levels-Gathers (suc n) w [] h g = record { in_chain = g.in_chain; in_next = tt }
  walk_levels-Gathers (suc n) w (q ∷ queue) h g =
      let cleared : Gathers (record w { next_queue = [] }) = record {
        in_chain = g.in_chain;
        in_next = tt;
      } in
      let g' = visit_queue-Gathers (record w { next_queue = [] }) (q ∷ queue) h cleared in
      walk_levels-Gathers n (visit_queue r d (record w { next_queue = [] }) (q ∷ queue)) _
        g'.in_next g'

  pub walk_from-All : (n i : ℕ) → P i → All P (walk_from r d n i).chain
  unfolding walk_from
  walk_from-All n i p =
      (walk_levels-Gathers n (record { visited = i ∷ []; chain = i ∷ []; next_queue = [] }) (i ∷ [])
        (p, tt) (record { in_chain = (p, tt); in_next = tt })).in_chain

All-from_Mem {ℓ κ} :
    {A : Type ℓ} (P : A → Type κ) (xs : List A) → ((x : A) → Memᴰ x xs → P x) → All P xs
All-from_Mem P [] f = tt
All-from_Mem P (x ∷ xs) f = (f x (Memᴰ.head refl), All-from_Mem P xs (λ y m. f y (Memᴰ.tail m)))

-- Every id that a walk answers is led to from its start by existing edges of its type.
pub walk_chain-LeadsTo :
    (r : Readers) (d : Direction) (i : ℕ) → All (LeadsTo r d i) (walk_chain r d i)
unfolding walk_chain
walk_chain-LeadsTo r d i =
    walk_from-All r d (LeadsTo r d i)
      (λ j led. All-from_Mem _ (r.crossrefs j) (λ ref m f x. hop led m f x)) max_chain_depth i start

module _ (r : Readers) (d : Direction) (i : ℕ) where
  visit_refs_start :
      (w : Walk) (refs : List Edge)
      → contains w.chain i ≡ true
      → contains (visit_refs r d w refs).chain i ≡ true
  unfolding visit_refs visit
  visit_refs_start w [] h = h
  visit_refs_start w (ref ∷ refs) h =
      visit_refs_start (visit r d w ref) refs (elim (Bool-cases (takes r d w.visited ref)) [
        | inl taken ↦ rw taken (rw contains-append (ground (arith, h)))
        | inr left ↦ rw left h
      ])

  visit_queue_start :
      (w : Walk) (queue : List ℕ)
      → contains w.chain i ≡ true
      → contains (visit_queue r d w queue).chain i ≡ true
  unfolding visit_queue
  visit_queue_start w [] h = h
  visit_queue_start w (q ∷ queue) h =
      visit_queue_start (visit_refs r d w (r.crossrefs q)) queue
        (visit_refs_start w (r.crossrefs q) h)

  walk_levels_start :
      (n : ℕ) (w : Walk) (queue : List ℕ)
      → contains w.chain i ≡ true
      → contains (walk_levels r d n w queue).chain i ≡ true
  unfolding walk_levels
  walk_levels_start zero w queue h = h
  walk_levels_start (suc n) w [] h = h
  walk_levels_start (suc n) w (q ∷ queue) h =
      let w' = visit_queue r d (record w { next_queue = [] }) (q ∷ queue) in
      walk_levels_start n w' w'.next_queue
        (visit_queue_start (record w { next_queue = [] }) (q ∷ queue) h)

-- The start is in what a walk gathers.
pub walk_from_start :
    (r : Readers) (d : Direction) (n i : ℕ) → contains (walk_from r d n i).chain i ≡ true
unfolding walk_from
walk_from_start r d n i = walk_levels_start r d i n _ (i ∷ []) (ground arith)
