-- ===== src/SessionGuard/Ceiling.antt =====
-- The ceiling of memora/session_guard.py with concurrent requests: a server as the steps that they take.
use memora.Prelude.{
  ℕ, suc, ◌+◌, ◌-◌, ◌≤◌, ◌<◌, true, false, ◌&&◌, some, ◌≡◌, refl, ◌∙◌, arith, ltb, leb, Bool-cases,
  inl, inr,
}
use memora.SessionGuard.{
  Limits, Guard, new_guard, Admission, window_full, unlimited, charged, Passage, goes_on, admit,
  refund, pass_bounds, establish, give_up, after_admit,
}

-- The guard, the sessions that the manager counts, the requests behind the guard that have no session
-- yet, and those whose session is counted while their response has not begun.
pub record Server : Type 0 where
  pub guard : Guard
  pub active : ℕ
  pub waiting : ℕ
  pub created : ℕ

abbrev passes_on : Passage → Server → Server
passes_on (goes_on token reserved) v = record v { waiting = suc v.waiting }
passes_on _ v = v

unfoldable pub arrive : Limits → ℕ → Server → Server
arrive l now v =
    let (passage, g) = pass_bounds l (some v.active) now v.guard in
    passes_on passage (record v { guard = g })

-- The steps of a server with a ceiling, in any order.
pub data Runs (l : Limits) : Server → Type 0 where
  at_start : Runs l (record { guard = new_guard; active = 0; waiting = 0; created = 0 })
  arrives : {v : Server} (now : ℕ) → Runs l v → Runs l (arrive l now v)
  creates :
      {g : Guard} {a w c : ℕ}
      → Runs l (record { guard = g; active = a; waiting = suc w; created = c })
      → Runs l (record { guard = g; active = suc a; waiting = w; created = suc c })
  establishes :
      {g : Guard} {a w c : ℕ}
      → Runs l (record { guard = g; active = a; waiting = w; created = suc c })
      → Runs l (record { guard = establish true g; active = a; waiting = w; created = c })
  gives_up :
      {g : Guard} {a w c : ℕ} (token : Admission)
      → Runs l (record { guard = g; active = a; waiting = suc w; created = c })
      → Runs l (record { guard = give_up token true g; active = a; waiting = w; created = c })
  fails :
      {g : Guard} {a w c : ℕ} (token : Admission)
      → Runs l (record { guard = g; active = a; waiting = w; created = suc c })
      → Runs l (record { guard = give_up token true g; active = a; waiting = w; created = c })
  closes :
      {g : Guard} {a w c : ℕ}
      → Runs l (record { guard = g; active = suc a; waiting = w; created = c })
      → Runs l (record { guard = g; active = a; waiting = w; created = c })

-- The reservations are those of the requests behind the guard, and there is room for each.
pub record IsBounded (l : Limits) (v : Server) : Type 0 where
  pub reserved : v.guard.pending ≡ v.waiting + v.created
  pub room : v.active + v.waiting ≤ l.max_sessions

refund_pending : (token : Admission) (g : Guard) → (refund token g).pending ≡ g.pending
unfolding refund
refund_pending window_full g = refl
refund_pending unlimited g = refl
refund_pending (charged token) g = refl

give_up_pending : (token : Admission) (g : Guard) → (give_up token true g).pending ≡ g.pending - 1
unfolding give_up
give_up_pending token g = rw (refund_pending token g) refl

admit_pending : (l : Limits) (now : ℕ) (g : Guard) → (admit l now g).1.pending ≡ g.pending
unfolding admit
admit_pending l now g = ground arith

after_admit-IsBounded :
    (l : Limits) (v : Server) (r : Admission × Guard)
    → r.1.pending ≡ suc (v.waiting + v.created)
    → suc (v.active + v.waiting) ≤ l.max_sessions
    → IsBounded l (passes_on (after_admit true r).0 (record v { guard = (after_admit true r).1 }))
after_admit-IsBounded l v (window_full, g) h room = record {
  reserved = omega (arith, h);
  room = omega (arith, room);
}
after_admit-IsBounded l v (unlimited, g) h room = record {
  reserved = omega (arith, h);
  room = omega (arith, room);
}
after_admit-IsBounded l v (charged t, g) h room = record {
  reserved = omega (arith, h);
  room = omega (arith, room);
}

arrive-IsBounded :
    (l : Limits) (now : ℕ) (v : Server)
    → 0 < l.max_sessions
    → IsBounded l v
    → IsBounded l (arrive l now v)
unfolding arrive pass_bounds
arrive-IsBounded l now v on b =
    elim (Bool-cases (leb l.max_sessions (v.active + v.guard.pending))) [
      | inl full ↦
          let shut : (ltb 0 l.max_sessions && leb l.max_sessions (v.active + v.guard.pending))
              ≡ true =
            ground (arith, full, on) in
          rw shut b
      | inr free ↦
          let open_ : (ltb 0 l.max_sessions && leb l.max_sessions (v.active + v.guard.pending))
              ≡ false =
            ground (arith, free) in
          let active_on : ltb 0 l.max_sessions ≡ true = ground (arith, on) in
          let g' : Guard = record v.guard { pending = suc v.guard.pending } in
          rw open_ (
            rw active_on (
              after_admit-IsBounded l v (admit l now g')
                (admit_pending l now g' ∙ omega (arith, b.reserved))
                (ground (arith, free, b.reserved))))
    ]

pub Runs-IsBounded : (l : Limits) (v : Server) → 0 < l.max_sessions → Runs l v → IsBounded l v
unfolding establish
Runs-IsBounded l v on at_start = record { reserved = refl; room = omega arith }
Runs-IsBounded l v on (arrives {v = u} now r) =
    arrive-IsBounded l now u on (Runs-IsBounded l u on r)
Runs-IsBounded l v on (creates {g} {a} {w} {c} r) =
    let b =
      Runs-IsBounded l (record { guard = g; active = a; waiting = suc w; created = c }) on r in
    record { reserved = omega (arith, b.reserved); room = omega (arith, b.room) }
Runs-IsBounded l v on (establishes {g} {a} {w} {c} r) =
    let b =
      Runs-IsBounded l (record { guard = g; active = a; waiting = w; created = suc c }) on r in
    record { reserved = omega (arith, b.reserved); room = b.room }
Runs-IsBounded l v on (gives_up {g} {a} {w} {c} token r) =
    let b =
      Runs-IsBounded l (record { guard = g; active = a; waiting = suc w; created = c }) on r in
    record {
      reserved = omega (arith, b.reserved, give_up_pending token g);
      room = omega (arith, b.room);
    }
Runs-IsBounded l v on (fails {g} {a} {w} {c} token r) =
    let b =
      Runs-IsBounded l (record { guard = g; active = a; waiting = w; created = suc c }) on r in
    record { reserved = omega (arith, b.reserved, give_up_pending token g); room = b.room }
Runs-IsBounded l v on (closes {g} {a} {w} {c} r) =
    let b =
      Runs-IsBounded l (record { guard = g; active = suc a; waiting = w; created = c }) on r in
    record { reserved = b.reserved; room = omega (arith, b.room) }

-- With a ceiling, no interleaving of requests opens more sessions than it allows.
pub sessions_bounded :
    (l : Limits) (v : Server) → 0 < l.max_sessions → Runs l v → v.active ≤ l.max_sessions
sessions_bounded l v on r = omega (arith, (Runs-IsBounded l v on r).room)
