-- ===== src/Lineage/Complete.antt =====
-- What the loop of `_walk_chain` of memora/storage.py keeps: its set and its list, and the ids whose edges
-- it has still to look at.
use memora.Prelude.{
  ℕ, zero, suc, Bool, true, false, not, ◌&&◌, ◌||◌, List, [], ◌∷◌, ◌++◌, ◌≡◌, refl, ap, sym, ◌∙◌,
  arith, contains, contains-append, nat_eq, inl, inr, Bool-cases, subst, nat_eq_iff,
}
use mathlib.Core.List.{append_assoc, append-nil}
use memora.Lineage.Store.{Edge}
use memora.Lineage.Walk.{
  Readers, Direction, follows, Walk, takes, visit, visit_refs, visit_queue, walk_levels, walk_from,
}

-- A list in which no number stands twice.
abbrev pub distinct : List ℕ → Bool
distinct [] = true
distinct (x ∷ xs) = not (contains xs x) && distinct xs

distinct-append_one :
    (xs : List ℕ) (a : ℕ)
    → distinct xs ≡ true
    → contains xs a ≡ false
    → distinct (xs ++ a ∷ []) ≡ true
distinct-append_one [] a h n = ground arith
distinct-append_one (x ∷ xs) a h n =
    rw contains-append
      (ground (arith, h, n, distinct-append_one xs a, nat_eq_iff x a, nat_eq_iff a x))

module _ (r : Readers) (d : Direction) where
  -- Every existing peer that the id's edges of the walk's type lead to is in the list.
  abbrev pub closed_in : List ℕ → List Edge → Bool
  closed_in seen [] = true
  closed_in seen (ref ∷ refs) =
      (not (follows d ref.kind && r.exists ref.peer) || contains seen ref.peer)
      && closed_in seen refs

  closed_in_wider :
      (seen more : List ℕ) (refs : List Edge)
      → closed_in seen refs ≡ true
      → closed_in (seen ++ more) refs ≡ true
  closed_in_wider seen more [] h = refl
  closed_in_wider seen more (ref ∷ refs) h =
      rw contains-append (ground (arith, h, closed_in_wider seen more refs))

  -- What the loop keeps, beside the ids that it has still to look at.
  pub record IsWalk (w : Walk) (queue : List ℕ) : Type 0 where
    pub seen_chain : w.visited ≡ w.chain
    pub once : distinct w.visited ≡ true
    pub settled :
        (j : ℕ)
        → contains w.visited j ≡ true
        → (contains (queue ++ w.next_queue) j || closed_in w.visited (r.crossrefs j)) ≡ true

  visit_grows :
      (w : Walk) (ref : Edge) → (more : List ℕ) × ((visit r d w ref).visited ≡ w.visited ++ more)
  unfolding visit
  visit_grows w ref = elim (Bool-cases (takes r d w.visited ref)) [
    | inl taken ↦ (ref.peer ∷ [], rw taken refl)
    | inr left ↦ ([], rw left (sym (append-nil w.visited)))
  ]

  visit_refs_grows :
      (w : Walk) (refs : List Edge)
      → (more : List ℕ) × ((visit_refs r d w refs).visited ≡ w.visited ++ more)
  unfolding visit_refs
  visit_refs_grows w [] = ([], sym (append-nil w.visited))
  visit_refs_grows w (ref ∷ refs) =
      let (more, e) = visit_refs_grows (visit r d w ref) refs in
      let (first, f) = visit_grows w ref in
      (first ++ more, e ∙ ap (λ l. l ++ more) f ∙ append_assoc w.visited first more)

  visit_has :
      (w : Walk) (ref : Edge)
      → (not (follows d ref.kind && r.exists ref.peer)
          || contains (visit r d w ref).visited ref.peer)
        ≡ true
  unfolding visit takes
  visit_has w ref = elim (Bool-cases (takes r d w.visited ref)) [
    | inl taken ↦ rw taken (rw contains-append (ground (arith, nat_eq_iff ref.peer ref.peer)))
    | inr left ↦ rw left (ground (arith, left))
  ]

  visit_refs_closes :
      (w : Walk) (refs : List Edge) → closed_in (visit_refs r d w refs).visited refs ≡ true
  unfolding visit_refs
  visit_refs_closes w [] = refl
  visit_refs_closes w (ref ∷ refs) =
      let (more, e) = visit_refs_grows (visit r d w ref) refs in
      let has = visit_has w ref in
      let rest = visit_refs_closes (visit r d w ref) refs in
      let kept : contains (visit_refs r d (visit r d w ref) refs).visited ref.peer
          ≡ (contains (visit r d w ref).visited ref.peer || contains more ref.peer) =
        ap (λ l. contains l ref.peer) e ∙ contains-append _ more ref.peer in
      ground (arith, rest, kept, has)

  settled_after :
      (w : Walk) (ref : Edge) (queue : List ℕ)
      → IsWalk w queue
      → (j : ℕ) → contains (w.visited ++ ref.peer ∷ []) j ≡ true
      → (contains (queue ++ (w.next_queue ++ ref.peer ∷ [])) j
          || closed_in (w.visited ++ ref.peer ∷ []) (r.crossrefs j))
        ≡ true
  settled_after w ref queue h j c =
      let wide = closed_in_wider w.visited (ref.peer ∷ []) (r.crossrefs j) in
      let had = contains-append w.visited (ref.peer ∷ []) j in
      let queued = contains-append queue w.next_queue j in
      let now = contains-append queue (w.next_queue ++ ref.peer ∷ []) j in
      let next = contains-append w.next_queue (ref.peer ∷ []) j in
      ground (arith, wide, h.settled j, had, queued, now, next, c)

  visit-IsWalk :
      (w : Walk) (ref : Edge) (queue : List ℕ) → IsWalk w queue → IsWalk (visit r d w ref) queue
  unfolding visit takes
  visit-IsWalk w ref queue h = elim (Bool-cases (takes r d w.visited ref)) [
    | inl taken ↦ rw taken (record {
      seen_chain = ap (λ l. l ++ ref.peer ∷ []) h.seen_chain;
      once = distinct-append_one w.visited ref.peer h.once (ground (arith, taken));
      settled = λ j c. settled_after w ref queue h j c;
    })
    | inr left ↦ rw left h
  ]

  visit_refs-IsWalk :
      (w : Walk) (refs : List Edge) (queue : List ℕ)
      → IsWalk w queue
      → IsWalk (visit_refs r d w refs) queue
  unfolding visit_refs
  visit_refs-IsWalk w [] queue h = h
  visit_refs-IsWalk w (ref ∷ refs) queue h =
      visit_refs-IsWalk (visit r d w ref) refs queue (visit-IsWalk w ref queue h)

  -- An id whose edges are all in the walk need not be looked at any more.
  looked_at :
      (w : Walk) (q : ℕ) (queue : List ℕ)
      → closed_in w.visited (r.crossrefs q) ≡ true
      → IsWalk w (q ∷ queue)
      → IsWalk w queue
  looked_at w q queue shut h = record {
    seen_chain = h.seen_chain;
    once = h.once;
    settled = λ j c. elim (Bool-cases (nat_eq q j)) [
      | inl same ↦
          let shut_j : closed_in w.visited (r.crossrefs j) ≡ true =
            subst (λ k. closed_in w.visited (r.crossrefs k) ≡ true) ((nat_eq_iff q j).0 same)
              shut in
          ground (arith, shut_j)
      | inr other ↦ ground (arith, h.settled j c, other)
    ];
  }

  visit_queue-IsWalk :
      (w : Walk) (queue : List ℕ) → IsWalk w queue → IsWalk (visit_queue r d w queue) []
  unfolding visit_queue
  visit_queue-IsWalk w [] h = h
  visit_queue-IsWalk w (q ∷ queue) h =
      let w' = visit_refs r d w (r.crossrefs q) in
      visit_queue-IsWalk w' queue (
        looked_at w' q queue (visit_refs_closes w (r.crossrefs q))
          (visit_refs-IsWalk w (r.crossrefs q) (q ∷ queue) h))

  clear_queue :
      (w : Walk) (queue : List ℕ)
      → IsWalk w []
      → queue ≡ w.next_queue
      → IsWalk (record w { next_queue = [] }) queue
  clear_queue w queue h e = record {
    seen_chain = h.seen_chain;
    once = h.once;
    settled = λ j c. rw append-nil (rw e (h.settled j c));
  }

  walk_levels-IsWalk :
      (n : ℕ) (w : Walk) (queue : List ℕ)
      → IsWalk (record w { next_queue = [] }) queue
      → IsWalk (walk_levels r d n w queue) []
  unfolding walk_levels
  walk_levels-IsWalk zero w queue h = record {
    seen_chain = h.seen_chain;
    once = h.once;
    settled = λ j c. rw (append-nil) at (h.settled j c);
  }
  walk_levels-IsWalk (suc n) w [] h = h
  walk_levels-IsWalk (suc n) w (q ∷ queue) h =
      let w' = visit_queue r d (record w { next_queue = [] }) (q ∷ queue) in
      walk_levels-IsWalk n w' w'.next_queue (
        clear_queue w' w'.next_queue
          (visit_queue-IsWalk (record w { next_queue = [] }) (q ∷ queue) h) refl)

  pub walk_from-IsWalk : (n i : ℕ) → IsWalk (walk_from r d n i) []
  unfolding walk_from
  walk_from-IsWalk n i =
      walk_levels-IsWalk n (record { visited = i ∷ []; chain = i ∷ []; next_queue = [] }) (i ∷ [])
        (record { seen_chain = refl; once = refl; settled = λ j c. ground (arith, c) })
