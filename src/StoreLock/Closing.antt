-- ===== src/StoreLock/Closing.antt =====
-- The closes that the garbage collector asks of a `_StoreRWLock` of memora/backends.py.
use memora.Prelude.{
  ℕ, ◌+◌, ◌≡◌, refl, sym, ap, ◌∙◌, Bool, true, false, ◌||◌, none, some, List, [], ◌∷◌, ◌++◌,
  Bool-cases, Option-cases, inl, inr, arith,
}
use mathlib.Core.List.{append_assoc, append-nil}
use memora.StoreLock.Exclusion.{count}
use memora.StoreLock.{
  StoreLock, none_left, try_exclusive, release_exclusive, owned_by, close_all, drain_locked,
  end_exclusive, drain_loop, drain_deferred, close_from_gc,
}

close_all_lem : (conns closed : List ℕ) → close_all conns closed ≡ closed ++ conns
unfolding close_all
close_all_lem [] closed = sym (append-nil closed)
close_all_lem (conn ∷ conns) closed =
    close_all_lem conns (closed ++ conn ∷ []) ∙ append_assoc closed (conn ∷ []) conns

-- The connections that are closed, then those that still wait for it.
abbrev pub handed_in : StoreLock → List ℕ
handed_in l = l.closed ++ l.deferred

try_exclusive-keeps :
    (me : ℕ) (ignore_waiting : Bool) (l l' : StoreLock)
    → try_exclusive me ignore_waiting l ≡ some l'
    → (l'.closed ≡ l.closed) × (l'.deferred ≡ l.deferred)
unfolding try_exclusive
try_exclusive-keeps me ignore_waiting l l' h = (ground arith, ground arith)

drain_loop-handed_in :
    (me : ℕ) (conns : List ℕ) (l : StoreLock)
    → l.deferred ≡ conns
    → handed_in (drain_loop me conns l) ≡ handed_in l
unfolding drain_loop release_exclusive
drain_loop-handed_in me [] l h = refl
drain_loop-handed_in me (conn ∷ conns) l h = elim (Option-cases (try_exclusive me true l)) [
  | inl busy ↦ rw busy refl
  | inr (l', got) ↦
      let (same, waits) = try_exclusive-keeps me true l l' got in
      rw got (
        drain_loop-handed_in me conns
          (record l' {
            deferred = conns;
            closed = l'.closed ++ conn ∷ [];
            writer = false;
            owner = none;
          })
          refl
        ∙ append_assoc l'.closed (conn ∷ []) conns
        ∙ ap (λ x. x ++ conn ∷ conns) same
        ∙ ap (λ x. l.closed ++ x) (sym h))
]

drain_deferred-handed_in : (me : ℕ) (l : StoreLock) → handed_in (drain_deferred me l) ≡ handed_in l
unfolding drain_deferred
drain_deferred-handed_in me l = elim (Bool-cases (l.draining || none_left l.deferred)) [
  | inl nothing ↦ rw nothing refl
  | inr some_left ↦
      rw some_left (drain_loop-handed_in me l.deferred (record l { draining = true }) refl)
]

count-append : (k : ℕ) (xs ys : List ℕ) → count k (xs ++ ys) ≡ count k xs + count k ys
count-append k [] ys = omega arith
count-append k (x ∷ xs) ys = omega (arith, count-append k xs ys)

-- A connection that the garbage collector closes is closed or waits to be closed, once, whoever holds
-- the lock, and so are all that were closed or waited before; and the end of a writer section leaves
-- none waiting: those that waited are closed, the oldest first, and the exclusive side is free.
pub close_from_gc-handed_in :
    (me conn : ℕ) (l : StoreLock)
    → ((k : ℕ) → count k (handed_in (close_from_gc me conn l)) ≡ count k (conn ∷ handed_in l))
      × ((end_exclusive l).closed ≡ handed_in l)
      × ((end_exclusive l).deferred ≡ [])
      × ((end_exclusive l).writer ≡ false)
unfolding close_from_gc end_exclusive drain_locked release_exclusive
close_from_gc-handed_in me conn l =
    (λ k. closed_once k, close_all_lem l.deferred l.closed, refl, refl)
  where
    front : (k : ℕ) → count k ((l.closed ++ conn ∷ []) ++ l.deferred) ≡ count k (conn ∷ handed_in l)
    front k = omega (
      arith,
      count-append k (l.closed ++ conn ∷ []) l.deferred,
      count-append k l.closed (conn ∷ []),
      count-append k l.closed l.deferred,
    )

    closed_once :
        (k : ℕ) → count k (handed_in (close_from_gc me conn l)) ≡ count k (conn ∷ handed_in l)
    closed_once k = elim (Bool-cases (owned_by me l)) [
      | inl mine ↦ rw mine (front k)
      | inr other ↦ rw other (elim (Option-cases (try_exclusive me false l)) [
        | inl busy ↦ rw busy (
            omega (
              arith,
              count-append k l.closed (l.deferred ++ conn ∷ []),
              count-append k l.deferred (conn ∷ []),
              count-append k l.closed l.deferred,
            ))
        | inr (l', got) ↦
            let (same, waits) = try_exclusive-keeps me false l l' got in
            rw got (
              ap (λ x. count k x)
                (drain_deferred-handed_in me
                    (record l' { closed = l'.closed ++ conn ∷ []; writer = false; owner = none })
                  ∙ ap (λ x. (x ++ conn ∷ []) ++ l'.deferred) same
                  ∙ ap (λ x. (l.closed ++ conn ∷ []) ++ x) waits)
              ∙ front k)
      ])
    ]
