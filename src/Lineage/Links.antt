-- ===== src/Lineage/Links.antt =====
-- What `add_link` and `remove_link` of memora/storage.py leave in the crossref lists.
use memora.Prelude.{
  ℕ, ◌+◌, Bool, true, false, not, List, [], ◌∷◌, ◌++◌, ◌≡◌, refl, ap, ◌∙◌, subst, arith, keep_if,
  if◌then◌else◌, nat_eq, nat_eq_iff, nat_eq_refl, length, ltb, insert, lookup-insert, ℕ_comparable,
  Bool-cases, inl, inr, ◌≢◌,
}
use memora.Lineage.Store.{
  Edge, EdgeType, Store, get_crossrefs, reverse_edge_type, upsert_crossref_edge, linked, add_link,
  drop_edges, remove_link,
}

-- The edges of an id to a peer.
abbrev pub edges_to : Store → ℕ → ℕ → List Edge
edges_to s i peer = keep_if (λ r. nat_eq r.peer peer) (get_crossrefs s i)

pub keep_if-append :
    {A : Type 0} (p : A → Bool) (xs ys : List A)
    → keep_if p (xs ++ ys) ≡ keep_if p xs ++ keep_if p ys
keep_if-append p [] ys = refl
keep_if-append p (x ∷ xs) ys = elim (Bool-cases (p x)) [
  | inl stays ↦ rw stays (rw (keep_if-append p xs ys) refl)
  | inr goes ↦ rw goes (keep_if-append p xs ys)
]

no_edges :
    (peer : ℕ) (refs : List Edge)
    → keep_if (λ r. nat_eq r.peer peer) (keep_if (λ r. not (nat_eq r.peer peer)) refs) ≡ []
no_edges peer [] = refl
no_edges peer (x ∷ refs) = elim (Bool-cases (nat_eq x.peer peer)) [
  | inl same ↦ rw same (no_edges peer refs)
  | inr other ↦ rw other (rw other (no_edges peer refs))
]

get_crossrefs-insert :
    (s : Store) (i j : ℕ) (refs : List Edge)
    → get_crossrefs (record s { crossrefs = insert i refs s.crossrefs }) j
      ≡ (if nat_eq i j then refs else get_crossrefs s j)
unfolding get_crossrefs
get_crossrefs-insert s i j refs = elim (Bool-cases (nat_eq i j)) [
  | inl same ↦ rw lookup-insert (rw same refl)
  | inr other ↦ rw lookup-insert (rw other refl)
]

pub written :
    (s : Store) (i j peer : ℕ) (refs : List Edge)
    → edges_to (record s { crossrefs = insert i refs s.crossrefs }) j peer
      ≡ keep_if (λ r. nat_eq r.peer peer) (if nat_eq i j then refs else get_crossrefs s j)
written s i j peer refs =
    ap (keep_if (λ (r : Edge). nat_eq r.peer peer)) (get_crossrefs-insert s i j refs)

-- After an edge is written, it is the only one from the id to that peer.
upsert_only_edge :
    (i peer : ℕ) (kind : EdgeType) (s : Store)
    → edges_to (upsert_crossref_edge i peer kind s) i peer
      ≡ record { peer = peer; kind = kind } ∷ []
unfolding upsert_crossref_edge
upsert_only_edge i peer kind s =
    written s i i peer _
    ∙ rw (nat_eq_refl i) (
        keep_if-append _ (keep_if (λ r. not (nat_eq r.peer peer)) (get_crossrefs s i)) _
        ∙ rw (no_edges peer (get_crossrefs s i)) (rw (nat_eq_refl peer) refl))

-- The list of another id is as it was.
pub upsert_elsewhere :
    (i j peer q : ℕ) (kind : EdgeType) (s : Store)
    → nat_eq i j ≡ false
    → edges_to (upsert_crossref_edge i peer kind s) j q ≡ edges_to s j q
unfolding upsert_crossref_edge
upsert_elsewhere i j peer q kind s other = written s i j q _ ∙ rw other refl

pub record LinkedBoth (from_id to_id : ℕ) (kind : EdgeType) (s : Store) : Type 0 where
  pub forth : edges_to s from_id to_id ≡ record { peer = to_id; kind = kind } ∷ []
  pub back :
      edges_to s to_id from_id ≡ record { peer = from_id; kind = reverse_edge_type kind } ∷ []

-- A bidirectional link between two different ids that succeeds leaves one edge each way, the second of
-- the reverse type.
pub add_link-LinkedBoth :
    (from_id to_id : ℕ) (kind : EdgeType) (s s' : Store)
    → from_id ≢ to_id
    → add_link from_id to_id kind true s ≡ linked s'
    → LinkedBoth from_id to_id kind s'
unfolding add_link
add_link-LinkedBoth from_id to_id kind s s' apart h =
    let first = upsert_crossref_edge from_id to_id kind s in
    let second = upsert_crossref_edge to_id from_id (reverse_edge_type kind) first in
    let away : nat_eq to_id from_id ≡ false = ground (arith, apart) in
    let same : second ≡ s' = ground (arith, h) in
    subst (LinkedBoth from_id to_id kind) same (record {
      forth =
          upsert_elsewhere to_id from_id from_id to_id (reverse_edge_type kind) first away
          ∙ upsert_only_edge from_id to_id kind s;
      back = upsert_only_edge to_id from_id (reverse_edge_type kind) first;
    })

nothing_dropped :
    (peer : ℕ) (refs : List Edge)
    → length (keep_if (λ (r : Edge). not (nat_eq r.peer peer)) refs)
        + length (keep_if (λ (r : Edge). nat_eq r.peer peer) refs)
      ≡ length refs
nothing_dropped peer [] = omega arith
nothing_dropped peer (x ∷ refs) = ground (arith, nothing_dropped peer refs)

still_none :
    (p q : Edge → Bool) (refs : List Edge) → keep_if p refs ≡ [] → keep_if p (keep_if q refs) ≡ []
still_none p q [] h = refl
still_none p q (x ∷ refs) h = elim (Bool-cases (p x)) [
  | inl held ↦ let h' = rw held at h in ground (arith, h')
  | inr gone ↦
      let rest = still_none p q refs (rw gone at h) in
      elim (Bool-cases (q x)) [ inl stays ↦ rw stays (rw gone rest) | inr goes ↦ rw goes rest ]
]

length_zero : (xs : List Edge) → length xs ≡ 0 → xs ≡ []
length_zero [] h = refl
length_zero (x ∷ xs) h = ground (arith, h)

drop_edges-none : (i peer : ℕ) (s : Store) → edges_to (drop_edges i peer s) i peer ≡ []
unfolding drop_edges
drop_edges-none i peer s =
    let kept = keep_if (λ r. not (nat_eq r.peer peer)) (get_crossrefs s i) in
    elim (Bool-cases (ltb (length kept) (length (get_crossrefs s i)))) [
      | inl dropped ↦
          rw dropped (written s i i peer kept ∙ rw nat_eq_refl (no_edges peer (get_crossrefs s i)))
      | inr whole ↦
          let counts = nothing_dropped peer (get_crossrefs s i) in
          let none_there : length (edges_to s i peer) ≡ 0 = ground (arith, whole, counts) in
          rw whole (length_zero (edges_to s i peer) none_there)
    ]

drop_edges-still_none :
    (i peer j q : ℕ) (s : Store) → edges_to s j q ≡ [] → edges_to (drop_edges i peer s) j q ≡ []
unfolding drop_edges
drop_edges-still_none i peer j q s h =
    let kept = keep_if (λ r. not (nat_eq r.peer peer)) (get_crossrefs s i) in
    elim (Bool-cases (ltb (length kept) (length (get_crossrefs s i)))) [
      | inl dropped ↦ rw dropped (
          written s i j q kept ∙ elim (Bool-cases (nat_eq i j)) [
            | inl same ↦ rw same (
                still_none _ _ (get_crossrefs s i)
                  (ap (λ k. edges_to s k q) ((nat_eq_iff i j).0 same) ∙ h))
            | inr other ↦ rw other h
          ])
      | inr whole ↦ rw whole h
    ]

-- After a link is removed both ways, neither id has an edge to the other.
pub remove_link_clears :
    (from_id to_id : ℕ) (s : Store)
    → (edges_to (remove_link from_id to_id true s) from_id to_id ≡ [])
      × (edges_to (remove_link from_id to_id true s) to_id from_id ≡ [])
unfolding remove_link
remove_link_clears from_id to_id s =
    let first = drop_edges from_id to_id s in
    (
      drop_edges-still_none to_id from_id from_id to_id first (drop_edges-none from_id to_id s),
      drop_edges-none to_id from_id first,
    )
