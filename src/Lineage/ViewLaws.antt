-- ===== src/Lineage/ViewLaws.antt =====
-- The ids that `_load_supersession_view` of memora/storage.py reads, and the supersession edges that it
-- sees.
use memora.Prelude.{
  ℕ, zero, suc, true, some, List, [], ◌∷◌, ◌++◌, ◌≡◌, refl, ◌∙◌, subst, arith, contains,
  contains-append, nat_eq, nat_eq_iff, inl, inr, Bool-cases, All, All-mono, keep_if, ltb, length,
  ◌+◌, Option-cases,
}
use mathlib.Core.List.{append-nil}
use memora.Lineage.Store.{Edge, Store, retired_memory_ids}
use memora.Lineage.Walk.{add_new}
use memora.Lineage.View.{
  View, is_supersession, read_crossrefs, new_peers, next_frontier, view_levels,
  load_supersession_view,
}
use memora.Lineage.Sets.{contains-add_new}

-- Each supersession edge of the list leads into the set.
abbrev pub LeadsInto : List ℕ → List Edge → Type 0
LeadsInto set refs =
    All (λ (ref : Edge). is_supersession ref.kind ≡ true → contains set ref.peer ≡ true) refs

LeadsInto-mono :
    (s t : List ℕ) (refs : List Edge)
    → ((a : ℕ) → contains s a ≡ true → contains t a ≡ true)
    → LeadsInto s refs
    → LeadsInto t refs
LeadsInto-mono s t refs f h = All-mono (λ ref g k. f ref.peer (g k)) refs h

new_peers-LeadsInto :
    (checked : List ℕ) (s : Store) (seeds : List ℕ) (refs : List Edge)
    → LeadsInto (checked ++ new_peers s seeds checked refs) refs
unfolding new_peers
new_peers-LeadsInto checked s seeds [] = tt
new_peers-LeadsInto checked s seeds (ref ∷ refs) =
    let found = new_peers s seeds checked refs in
    let now = new_peers s seeds checked (ref ∷ refs) in
    (
      (λ k. rw contains-append (ground (arith, k, nat_eq_iff ref.peer ref.peer))),
      LeadsInto-mono (checked ++ found) (checked ++ now) refs
          (λ a h. rw contains-append (ground (arith, contains-append checked found a, h)))
          (new_peers-LeadsInto checked s seeds refs),
    )

module _ (s : Store) (seeds : List ℕ) where
  next_frontier-LeadsInto :
      (checked frontier : List ℕ) (j : ℕ)
      → contains frontier j ≡ true
      → LeadsInto (checked ++ next_frontier s seeds checked frontier) (read_crossrefs s seeds j)
  unfolding next_frontier
  next_frontier-LeadsInto checked [] j h = ground arith
  next_frontier-LeadsInto checked (i ∷ frontier) j h =
      let here = new_peers s seeds checked (read_crossrefs s seeds i) in
      let rest = next_frontier s seeds checked frontier in
      elim (Bool-cases (nat_eq i j)) [
        | inl same ↦
            LeadsInto-mono (checked ++ here) (checked ++ (here ++ rest)) _
              (λ a c.
                rw contains-append
                  (rw contains-append (ground (arith, contains-append checked here a, c))))
              (subst (λ k. LeadsInto (checked ++ here) (read_crossrefs s seeds k))
                ((nat_eq_iff i j).0 same)
                (new_peers-LeadsInto checked s seeds (read_crossrefs s seeds i)))
        | inr other ↦
            LeadsInto-mono (checked ++ rest) (checked ++ (here ++ rest)) _
              (λ a c.
                rw contains-append
                  (rw contains-append (ground (arith, contains-append checked rest a, c))))
              (next_frontier-LeadsInto checked frontier j (ground (arith, h, other)))
      ]

  -- A set that the edges read from its ids do not leave.
  pub record IsRead (set : List ℕ) (c : List ℕ) : Type 0 where
    pub within : (j : ℕ) → contains set j ≡ true → contains c j ≡ true
    pub shut : (j : ℕ) → contains c j ≡ true → LeadsInto c (read_crossrefs s seeds j)

  read_all :
      (checked c : List ℕ)
      → ((j : ℕ) → contains checked j ≡ true → LeadsInto (checked ++ []) (read_crossrefs s seeds j))
      → checked ≡ c
      → IsRead (checked ++ []) c
  read_all checked c h e =
      subst (IsRead (checked ++ [])) (append-nil checked ∙ e)
        (record { within = λ j k. k; shut = λ j k. h j (rw (append-nil checked) at k) })

  next_level :
      (checked frontier : List ℕ)
      → ((j : ℕ)
          → contains checked j ≡ true
          → LeadsInto (checked ++ frontier) (read_crossrefs s seeds j))
      → (j : ℕ) → contains (checked ++ frontier) j ≡ true
      → LeadsInto
          ((checked ++ frontier)
            ++ add_new [] (next_frontier s seeds (checked ++ frontier) frontier))
          (read_crossrefs s seeds j)
  next_level checked frontier h j k =
      let old = checked ++ frontier in
      let new = next_frontier s seeds old frontier in
      elim (Bool-cases (contains frontier j)) [
        | inl front ↦
            LeadsInto-mono (old ++ new) (old ++ add_new [] new) _
              (λ a c.
                rw contains-append
                  (rw contains-add_new (ground (arith, contains-append old new a, c))))
              (next_frontier-LeadsInto old frontier j front)
        | inr other ↦
            LeadsInto-mono old (old ++ add_new [] new) _
              (λ a c. rw contains-append (ground (arith, c)))
              (h j (ground (arith, contains-append checked frontier j, k, other)))
      ]

  view_levels-IsRead :
      (n : ℕ) (checked frontier c : List ℕ)
      → ((j : ℕ)
          → contains checked j ≡ true
          → LeadsInto (checked ++ frontier) (read_crossrefs s seeds j))
      → view_levels s seeds n checked frontier ≡ some c
      → IsRead (checked ++ frontier) c
  unfolding view_levels
  view_levels-IsRead zero checked [] c h e = read_all checked c h (cc e)
  view_levels-IsRead zero checked (f ∷ frontier) c h e = ground (arith, e)
  view_levels-IsRead (suc n) checked [] c h e = read_all checked c h (cc e)
  view_levels-IsRead (suc n) checked (f ∷ frontier) c h e =
      let checked' = checked ++ f ∷ frontier in
      let new = add_new [] (next_frontier s seeds checked' (f ∷ frontier)) in
      elim (Bool-cases (ltb 1000 (length checked + length (f ∷ frontier)))) [
        | inl big ↦ ground (arith, big, e)
        | inr small ↦
            let next =
              view_levels-IsRead n checked' new c (next_level checked (f ∷ frontier) h)
                (rw small at e) in
            record {
              within = λ j k. next.within j (rw contains-append (ground (arith, k)));
              shut = next.shut;
            }
      ]

-- The view that the seeds lead to has the seeds, is not left by the edges that it sees, and knows which
-- of its ids are retired.
pub record IsView (s : Store) (seeds : List ℕ) (v : View) : Type 0 where
  pub of_store : v.store ≡ s
  pub read : IsRead s v.seeds v.seeds v.checked
  pub seeded : (j : ℕ) → contains v.seeds j ≡ contains seeds j
  pub retires : v.retired ≡ keep_if (λ i. contains (retired_memory_ids s) i) v.checked

pub load_supersession_view-IsView :
    (s : Store) (seeds : List ℕ) (v : View)
    → load_supersession_view s seeds ≡ some v
    → IsView s seeds v
unfolding load_supersession_view
load_supersession_view-IsView s seeds v e =
    elim (Option-cases (view_levels s (add_new [] seeds) 400 [] (add_new [] seeds))) [
      | inl past ↦ let e' = rw past at e in ground (arith, e')
      | inr (c, got) ↦
          let e' = rw got at e in
          let same : record {
            store = s;
            seeds = add_new [] seeds;
            checked = c;
            retired = keep_if (λ i. contains (retired_memory_ids s) i) c;
          }
              ≡ v =
            cc e' in
          subst (IsView s seeds) same (record {
            of_store = refl;
            read =
                view_levels-IsRead s (add_new [] seeds) 400 [] (add_new [] seeds) c
                  (λ j k. ground (arith, k)) got;
            seeded = λ j. contains-add_new [] seeds j;
            retires = refl;
          })
    ]
