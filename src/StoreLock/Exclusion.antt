-- ===== src/StoreLock/Exclusion.antt =====
-- Who is inside a `_StoreRWLock` of memora/backends.py, under any interleaving of threads.
use memora.Prelude.{
  ◌⊎◌, ℕ, ◌+◌, ◌-◌, ◌<◌, ◌≡◌, refl, sym, ◌∙◌, Bool, true, false, not, ◌&&◌, ◌||◌, some, List, [],
  ◌∷◌, if◌then◌else◌, ltb, leb, nat_eq, nat_eq_iff, nat_eq_refl, lookup, insert, remove,
  lookup-insert, lookup-remove, ℕ_comparable, arith, Bool-cases, inl, inr, subst,
}
use memora.StoreLock.{
  StoreLock, new_lock, reads, holds_of, none_left, acquire_shared, release_shared, try_exclusive,
  release_exclusive, owned_by, waits, begin_exclusive, grant,
}

-- How often a thread stands in the list of shared holds.
abbrev pub count : ℕ → List ℕ → ℕ
count k [] = 0
count k (i ∷ is) = (if nat_eq i k then 1 else 0) + count k is

abbrev pub drop_one : ℕ → List ℕ → List ℕ
drop_one k [] = []
drop_one k (i ∷ is) = if nat_eq i k then is else i ∷ drop_one k is

-- A step of some thread, with the shared holds that are open: each was acquired and is not released.
pub data Step : StoreLock → List ℕ → StoreLock → List ℕ → Type 0 where
  reading :
      (me : ℕ) (l l' : StoreLock) (held : List ℕ)
      → acquire_shared me l ≡ some l'
      → Step l held l' (me ∷ held)
  read_done :
      (who : ℕ) (l : StoreLock) (held : List ℕ)
      → 0 < count who held
      → Step l held (release_shared who l) (drop_one who held)
  trying :
      (me : ℕ) (ignore_waiting : Bool) (l l' : StoreLock) (held : List ℕ)
      → try_exclusive me ignore_waiting l ≡ some l'
      → Step l held l' held
  asking :
      (me : ℕ) (l l' : StoreLock) (held : List ℕ)
      → begin_exclusive me l ≡ waits l'
      → Step l held l' held
  granted : (me : ℕ) (l l' : StoreLock) (held : List ℕ) → grant me l ≡ some l' → Step l held l' held
  interrupted :
      (l : StoreLock) (held : List ℕ) → Step l held (record l { waiting = l.waiting - 1 }) held
  write_done :
      (me : ℕ) (l : StoreLock) (held : List ℕ)
      → owned_by me l ≡ true
      → Step l held (release_exclusive l) held
  closing :
      (deferred closed : List ℕ) (draining : Bool) (l : StoreLock) (held : List ℕ)
      → Step l held (record l { deferred = deferred; closed = closed; draining = draining }) held

pub data Run : StoreLock → List ℕ → Type 0 where
  fresh : (l : StoreLock) → l ≡ new_lock → Run l []
  stepped :
      {l l' : StoreLock} {held held' : List ℕ} → Run l held → Step l held l' held' → Run l' held'

-- The dict counts the holds, and a writer leaves it empty.
record IsCounted (l : StoreLock) (held : List ℕ) : Type 0 where
  counted : (k : ℕ) → holds_of (lookup k l.readers) ≡ count k held
  apart : l.writer ≡ true → l.readers ≡ []

count-drop_one :
    (k who : ℕ) (held : List ℕ)
    → count k (drop_one who held) ≡ (if nat_eq who k then count k held - 1 else count k held)
count-drop_one k who [] = ground arith
count-drop_one k who (i ∷ is) = ground (arith, count-drop_one k who is)

reads_nothing : (me : ℕ) (l : StoreLock) → l.readers ≡ [] → reads me l ≡ false
unfolding lookup
reads_nothing me l h = rw h refl

-- A reader was let in while no writer held the lock.
read_no_writer :
    (me : ℕ) (l : StoreLock) (held : List ℕ)
    → (not (reads me l) && (l.writer || ltb 0 l.waiting)) ≡ false
    → IsCounted l held
    → l.writer ≡ false
read_no_writer me l held free v = elim (Bool-cases l.writer) [
  | inr out ↦ out
  | inl busy ↦ let unread = reads_nothing me l (v.apart busy) in cc (rw (unread, busy) at free)
]

holds-insert :
    (me n k : ℕ) (readers : List (ℕ × ℕ))
    → holds_of (lookup k (insert me n readers))
      ≡ (if nat_eq me k then n else holds_of (lookup k readers))
holds-insert me n k readers =
    let e = lookup-insert me k n readers in
    elim (Bool-cases (nat_eq me k)) [
      | inl same ↦ rw (e, same) refl
      | inr other ↦ rw (e, other) refl
    ]

holds-remove :
    (who k : ℕ) (readers : List (ℕ × ℕ))
    → holds_of (lookup k (remove who readers))
      ≡ (if nat_eq who k then 0 else holds_of (lookup k readers))
holds-remove who k readers =
    let e = lookup-remove who k readers in
    elim (Bool-cases (nat_eq who k)) [
      | inl same ↦ rw (e, same) refl
      | inr other ↦ rw (e, other) refl
    ]

-- A shared hold that is open keeps the writer out.
still :
    (who : ℕ) (l : StoreLock) (held : List ℕ)
    → 0 < count who held
    → IsCounted l held
    → l.writer ≡ true
    → ⊥
unfolding lookup
still who l held some_held v busy =
    let nobody : holds_of (lookup who l.readers) ≡ 0 = rw (v.apart busy) refl in
    absurd (omega (arith, v.counted who))

reading-IsCounted :
    (me : ℕ) (l l' : StoreLock) (held : List ℕ)
    → acquire_shared me l ≡ some l'
    → IsCounted l held
    → IsCounted l' (me ∷ held)
unfolding acquire_shared
reading-IsCounted me l l' held h v =
    elim (Bool-cases (not (reads me l) && (l.writer || ltb 0 l.waiting))) [
      | inl shut ↦ cc (rw shut at h)
      | inr free ↦
          let n = holds_of (lookup me l.readers) + 1 in
          let shape : record l { readers = insert me n l.readers } ≡ l' = cc (rw free at h) in
          let out = read_no_writer me l held free v in
          subst (λ x. IsCounted x (me ∷ held)) shape
            (record {
              counted = λ k.
                  holds-insert me n k l.readers
                  ∙ ground (arith, v.counted k, v.counted me, nat_eq_iff me k);
              apart = λ busy. cc (busy, out);
            })
    ]

released-IsCounted :
    (who : ℕ) (l : StoreLock) (held : List ℕ)
    → 0 < count who held
    → IsCounted l held
    → IsCounted (release_shared who l) (drop_one who held)
unfolding release_shared
released-IsCounted who l held some_held v =
    elim (Bool-cases (leb (holds_of (lookup who l.readers)) 1)) [
      | inl last ↦ rw last (record {
        counted = λ k.
            holds-remove who k l.readers
            ∙ ground (
              arith,
              v.counted k,
              v.counted who,
              nat_eq_iff who k,
              count-drop_one k who held,
              last,
            );
        apart = λ busy. absurd (still who l held some_held v busy);
      })
      | inr more ↦ rw more (record {
        counted = λ k.
            holds-insert who (holds_of (lookup who l.readers) - 1) k l.readers
            ∙ ground (
              arith,
              v.counted k,
              v.counted who,
              nat_eq_iff who k,
              count-drop_one k who held,
              more,
            );
        apart = λ busy. absurd (still who l held some_held v busy);
      })
    ]

free_readers : (rs : List (ℕ × ℕ)) → none_left rs ≡ true → rs ≡ []
free_readers [] h = refl
free_readers (r ∷ rs) h = cc h

trying-IsCounted :
    (me : ℕ) (ignore_waiting : Bool) (l l' : StoreLock) (held : List ℕ)
    → try_exclusive me ignore_waiting l ≡ some l'
    → IsCounted l held
    → IsCounted l' held
unfolding try_exclusive
trying-IsCounted me ignore_waiting l l' held h v = elim (Bool-cases (none_left l.readers)) [
  | inr busy ↦ absurd (ground arith)
  | inl free ↦
      let shape : record l { writer = true; owner = some me } ≡ l' = ground arith in
      subst (λ x. IsCounted x held) shape
        (record { counted = v.counted; apart = λ busy. free_readers l.readers free })
]

granted-IsCounted :
    (me : ℕ) (l l' : StoreLock) (held : List ℕ)
    → grant me l ≡ some l'
    → IsCounted l held
    → IsCounted l' held
unfolding grant
granted-IsCounted me l l' held h v = elim (Bool-cases (none_left l.readers)) [
  | inr busy ↦ absurd (ground arith)
  | inl free ↦
      let shape : record l { waiting = l.waiting - 1; writer = true; owner = some me } ≡ l' =
        ground arith in
      subst (λ x. IsCounted x held) shape
        (record { counted = v.counted; apart = λ busy. free_readers l.readers free })
]

asking-IsCounted :
    (me : ℕ) (l l' : StoreLock) (held : List ℕ)
    → begin_exclusive me l ≡ waits l'
    → IsCounted l held
    → IsCounted l' held
unfolding begin_exclusive
asking-IsCounted me l l' held h v =
    let shape : record l { waiting = l.waiting + 1 } ≡ l' = ground arith in
    subst (λ x. IsCounted x held) shape (record { counted = v.counted; apart = v.apart })

Step-IsCounted :
    {l l' : StoreLock} {held held' : List ℕ}
    → Step l held l' held'
    → IsCounted l held
    → IsCounted l' held'
unfolding release_exclusive
Step-IsCounted (reading me l l' held h) v = reading-IsCounted me l l' held h v
Step-IsCounted (read_done who l held some_held) v = released-IsCounted who l held some_held v
Step-IsCounted (trying me ignore_waiting l l' held h) v =
    trying-IsCounted me ignore_waiting l l' held h v
Step-IsCounted (asking me l l' held h) v = asking-IsCounted me l l' held h v
Step-IsCounted (granted me l l' held h) v = granted-IsCounted me l l' held h v
Step-IsCounted (interrupted l held) v = record { counted = v.counted; apart = v.apart }
Step-IsCounted (write_done me l held owned) v = record {
  counted = v.counted;
  apart = λ busy. cc busy;
}
Step-IsCounted (closing deferred closed draining l held) v = record {
  counted = v.counted;
  apart = v.apart;
}

new-IsCounted : (l : StoreLock) → l ≡ new_lock → IsCounted l []
unfolding new_lock lookup
new-IsCounted l h =
    subst (λ x. IsCounted x []) (sym h) (record { counted = λ k. refl; apart = λ busy. refl })

Run-IsCounted : {l : StoreLock} {held : List ℕ} → Run l held → IsCounted l held
Run-IsCounted (fresh l h) = new-IsCounted l h
Run-IsCounted (stepped r st) = Step-IsCounted st (Run-IsCounted r)

uncounted : (held : List ℕ) → ((k : ℕ) → count k held ≡ 0) → held ≡ []
uncounted [] h = refl
uncounted (i ∷ is) h =
    let e : count i (i ∷ is) ≡ 0 = h i in absurd (omega (arith, rw (nat_eq_refl i) at e))

-- Readers and the writer exclude each other. After any run of threads that take the shared side and
-- give it back, try for the exclusive side, wait for it, get it, are interrupted, leave it and close
-- connections: the exclusive side is free or no shared hold is open, and the lock knows how many holds
-- each thread has.
pub writer_alone :
    (l : StoreLock) (held : List ℕ)
    → Run l held
    → ((l.writer ≡ false) ⊎ (held ≡ [])) × ((k : ℕ) → holds_of (lookup k l.readers) ≡ count k held)
unfolding lookup
writer_alone l held r =
    let v = Run-IsCounted r in
    (
      elim (Bool-cases l.writer) [
        | inr free ↦ inl free
        | inl busy ↦ inr (uncounted held (λ k. sym (v.counted k) ∙ rw (v.apart busy) refl))
      ],
      v.counted,
    )
