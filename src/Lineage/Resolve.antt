-- ===== src/Lineage/Resolve.antt =====
-- What `_resolve_latest` of memora/storage.py answers for an id that nothing supersedes, and how far the
-- test for retirement matters.
use memora.Prelude.{
  ℕ, Bool, true, false, not, ◌&&◌, List, [], ◌∷◌, ◌≡◌, refl, ap, arith, contains, any, nat_eq, inl,
  inr, Bool-cases, All, keep_if, or_false,
}
use memora.Lineage.Store.{Edge}
use memora.Lineage.Walk.{
  Readers, is_superseded_by, forward, Walk, takes, visit, visit_refs, visit_queue, walk_levels,
  walk_from, walk_chain, has_successor,
}
use memora.Lineage.Agree.{keep_if_agree}
use memora.Lineage.Latest.{leaves_of, resolve_latest, live_or_max}

module _ (r : Readers) where
  visit_refs_idle :
      (w : Walk) (refs : List Edge)
      → any (λ (ref : Edge). is_superseded_by ref.kind && r.exists ref.peer) refs ≡ false
      → visit_refs r forward w refs ≡ w
  unfolding visit_refs visit takes
  visit_refs_idle w [] h = refl
  visit_refs_idle w (ref ∷ refs) h =
      let (here, rest) = or_false (is_superseded_by ref.kind && r.exists ref.peer) _ h in
      let left : takes r forward w.visited ref ≡ false = ground (arith, here) in
      rw left (visit_refs_idle w refs rest)

  no_successor :
      (set : List ℕ) (i : ℕ) (refs : List Edge)
      → any (λ (ref : Edge). is_superseded_by ref.kind && r.exists ref.peer) refs ≡ false
      → any
          (λ (ref : Edge).
            is_superseded_by ref.kind
            && (contains set ref.peer && (not (nat_eq ref.peer i) && r.exists ref.peer)))
          refs
        ≡ false
  no_successor set i [] h = refl
  no_successor set i (ref ∷ refs) h =
      let (here, rest) = or_false (is_superseded_by ref.kind && r.exists ref.peer) _ h in
      let tail = no_successor set i refs rest in ground (arith, here, tail)

  walk_chain_alone :
      (i : ℕ)
      → any (λ (ref : Edge). is_superseded_by ref.kind && r.exists ref.peer) (r.crossrefs i) ≡ false
      → walk_chain r forward i ≡ i ∷ []
  unfolding walk_chain walk_from walk_levels visit_queue
  walk_chain_alone i h =
      ap (λ w. (walk_levels r forward 199 w w.next_queue).chain)
        (visit_refs_idle (record { visited = i ∷ []; chain = i ∷ []; next_queue = [] })
          (r.crossrefs i) h)

  -- An id that nothing live supersedes, and that is not retired, is its own only latest version.
  pub resolve_latest_self :
      (retired : ℕ → Bool) (i : ℕ)
      → any (λ (ref : Edge). is_superseded_by ref.kind && r.exists ref.peer) (r.crossrefs i) ≡ false
      → retired i ≡ false
      → resolve_latest r retired i ≡ i ∷ []
  unfolding resolve_latest leaves_of has_successor
  resolve_latest_self retired i h live =
      let leaf : has_successor r (i ∷ []) i ≡ false = no_successor (i ∷ []) i (r.crossrefs i) h in
      rw live (rw (walk_chain_alone i h) (rw leaf (rw live refl)))

All-keep_if : (P : ℕ → Type 0) (p : ℕ → Bool) (xs : List ℕ) → All P xs → All P (keep_if p xs)
All-keep_if P p [] h = tt
All-keep_if P p (x ∷ xs) h = elim (Bool-cases (p x)) [
  | inl stays ↦ rw stays (h.0, All-keep_if P p xs h.1)
  | inr goes ↦ rw goes (All-keep_if P p xs h.1)
]

live_or_max_agree :
    (q t : ℕ → Bool) (ids leaves : List ℕ)
    → All (λ m. not (q m) ≡ not (t m)) leaves
    → live_or_max q ids leaves ≡ live_or_max t ids leaves
live_or_max_agree q t ids [] h = refl
live_or_max_agree q t ids (l ∷ ls) h = keep_if_agree (λ m. not (q m)) (λ m. not (t m)) (l ∷ ls) h

-- Two tests for retirement that agree on an id's walk resolve it alike.
pub resolve_latest_retired :
    (r : Readers) (q t : ℕ → Bool) (i : ℕ)
    → q i ≡ t i
    → All (λ m. not (q m) ≡ not (t m)) (walk_chain r forward i)
    → resolve_latest r q i ≡ resolve_latest r t i
unfolding resolve_latest leaves_of
resolve_latest_retired r q t i e h =
    let ids = walk_chain r forward i in
    rw e (rw (live_or_max_agree q t ids (leaves_of r ids) (All-keep_if _ _ ids h)) refl)

-- A retired id has no latest version.
pub retired_unresolved :
    (r : Readers) (retired : ℕ → Bool) (i : ℕ) → retired i ≡ true → resolve_latest r retired i ≡ []
unfolding resolve_latest
retired_unresolved r retired i h = rw h refl
