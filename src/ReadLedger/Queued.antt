-- ===== src/ReadLedger/Queued.antt =====
-- The queue and the worker of memora/read_ledger.py, in any order of their steps.
use memora.Prelude.{
  ℕ, ◌/◌, ◌≤◌, ◌<◌, max, Option, none, some, List, [], ◌∷◌, ◌++◌, ltb, leb, length, length-append,
  All, arith, Bool-cases, inl, inr,
}
use memora.ReadLedger.{
  Files, Io, Ledger, enqueue, get_from, append_taken, Event, hands_in, takes, appends, step, run,
  starts, total, queue_max,
}
use memora.ReadLedger.Bounded.{IsFitting, append-total}

abbrev IsTaken : ℕ → Option (List ℕ × ℕ) → Type 0
IsTaken bound none = Unit
IsTaken bound (some item) = IsFitting bound item

record IsBounded (bound : ℕ) (g : Ledger) : Type 0 where
  queued : All (IsFitting bound) g.queue
  short : length g.queue ≤ queue_max
  taken : IsTaken bound g.taken
  files : total g.files ≤ bound

All-snoc :
    (bound : ℕ) (items : List (List ℕ × ℕ)) (item : List ℕ × ℕ)
    → All (IsFitting bound) items
    → IsFitting bound item
    → All (IsFitting bound) (items ++ item ∷ [])
All-snoc bound [] item h fits = (fits, tt)
All-snoc bound (i ∷ items) item h fits = (h.0, All-snoc bound items item h.1 fits)

enqueue-IsBounded :
    (bound : ℕ) (line : List ℕ) (cap : ℕ) (g : Ledger)
    → cap ≤ bound
    → IsBounded bound g
    → IsBounded bound (enqueue line cap g)
unfolding enqueue
enqueue-IsBounded bound line cap g wide ok = elim (Bool-cases (ltb (cap / 2) (length line))) [
  | inl long ↦
      simp long
        (record { queued = ok.queued; short = ok.short; taken = ok.taken; files = ok.files })
  | inr fits ↦ elim (Bool-cases (leb queue_max (length g.queue))) [
    | inl full ↦
        simp (fits, full)
          (record { queued = ok.queued; short = ok.short; taken = ok.taken; files = ok.files })
    | inr room ↦
        let below : length line ≤ cap / 2 = ground arith in
        let space : length g.queue < queue_max = ground arith in
        simp (fits, room)
          (record {
            queued = All-snoc bound g.queue (line, cap) ok.queued (below, wide);
            short = omega (arith, length-append g.queue ((line, cap) ∷ []));
            taken = ok.taken;
            files = ok.files;
          })
  ]
]

get_from-IsBounded :
    (bound : ℕ) (g : Ledger) (queue : List (List ℕ × ℕ)) (item : Option (List ℕ × ℕ))
    → All (IsFitting bound) queue
    → length queue ≤ queue_max
    → IsBounded bound g
    → IsBounded bound (get_from queue item g)
get_from-IsBounded bound g [] none h short ok = ok
get_from-IsBounded bound g [] (some item) h short ok = ok
get_from-IsBounded bound g (next ∷ queue) (some item) h short ok = ok
get_from-IsBounded bound g (next ∷ queue) none h short ok = record {
  queued = h.1;
  short = omega arith;
  taken = h.0;
  files = ok.files;
}

append_taken-IsBounded :
    (bound : ℕ) (io : Io) (g : Ledger) (item : Option (List ℕ × ℕ))
    → IsTaken bound item
    → IsBounded bound g
    → IsBounded bound (append_taken item io g)
unfolding append_taken
append_taken-IsBounded bound io g none h ok = ok
append_taken-IsBounded bound io g (some (line, cap)) h ok = record {
  queued = ok.queued;
  short = ok.short;
  taken = tt;
  files = append-total bound line cap io g.files h ok.files;
}

abbrev pub HasCap : ℕ → Event → Type 0
HasCap bound (hands_in line cap) = cap ≤ bound
HasCap bound takes = Unit
HasCap bound (appends io) = Unit

step-IsBounded :
    (bound : ℕ) (event : Event) (g : Ledger)
    → HasCap bound event
    → IsBounded bound g
    → IsBounded bound (step event g)
unfolding step
step-IsBounded bound (hands_in line cap) g wide ok = enqueue-IsBounded bound line cap g wide ok
step-IsBounded bound takes g wide ok =
    get_from-IsBounded bound g g.queue g.taken ok.queued ok.short ok
step-IsBounded bound (appends io) g wide ok = append_taken-IsBounded bound io g g.taken ok.taken ok

run-IsBounded :
    (bound : ℕ) (events : List Event) (g : Ledger)
    → All (HasCap bound) events
    → IsBounded bound g
    → IsBounded bound (run events g)
unfolding run
run-IsBounded bound [] g caps ok = ok
run-IsBounded bound (event ∷ events) g caps ok =
    run-IsBounded bound events (step event g) caps.1 (step-IsBounded bound event g caps.0 ok)

-- The cap holds. Whatever lines are handed in under caps of at most this one, however that interleaves
-- with the worker, and wherever the system calls of any append fail, short writes included, the live
-- file and the rotated one together never have more bytes than the cap, or than they had at the start
-- if that is more, and the queue never holds more lines than it may.
pub run-total :
    (cap : ℕ) (events : List Event) (f : Files)
    → All (HasCap cap) events
    → (total (run events (starts f)).files ≤ max (total f) cap)
      × (length (run events (starts f)).queue ≤ queue_max)
run-total cap events f caps =
    let wide = widen events caps in
    let ok =
      run-IsBounded (max (total f) cap) events (starts f) wide
        (record { queued = tt; short = omega arith; taken = tt; files = omega arith }) in
    (ok.files, ok.short)
  where
    widen : (es : List Event) → All (HasCap cap) es → All (HasCap (max (total f) cap)) es
    widen [] h = tt
    widen (hands_in line c ∷ es) h = (let low = h.0 in omega arith, widen es h.1)
    widen (takes ∷ es) h = (tt, widen es h.1)
    widen (appends io ∷ es) h = (tt, widen es h.1)
