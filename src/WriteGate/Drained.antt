-- ===== src/WriteGate/Drained.antt =====
-- The freeze barrier of memora/write_gate.py over every interleaving of writers, the replicator,
-- freezers and operators.
use memora.Prelude.{
  ℕ, ◌+◌, ◌-◌, ◌<◌, String, ◌≡◌, sym, ap, ◌∙◌, subst, Bool, true, false, ◌||◌, ◌⊎◌, Option, some,
  List, [], ◌∷◌, All, contains, arith, inl, inr, Bool-cases,
}
use memora.WriteGate.{
  GateToken, WriteGate, admitted, new_gate, enter, leave, FreezeStep, done, waiting, freeze_round,
  freeze_begin, freeze_at_start, thaw, apply_start_state,
}
use memora.WriteGate.Freeze.{
  KeepsTokens, freeze_round-KeepsTokens, freeze_begin-KeepsTokens, freeze_round-frozen,
  freeze_begin-frozen,
}
use memora.WriteGate.Admission.{
  IsWellFormed, enter_admits, enter-IsWellFormed, leave-IsWellFormed, All-pop_token,
}

-- The gate, with the identities that exempt entries were given, and the threads that wait in `freeze`.
pub record World : Type 0 where
  pub gate : WriteGate
  pub exempt : List ℕ
  pub freezers : ℕ

-- One atomic section under the gate's lock.
pub data Step : World → World → Type 0 where
  write :
      (w : World) (desc caller : String) (t : GateToken) (g : WriteGate)
      → enter desc false caller w.gate ≡ admitted t g
      → Step w (record w { gate = g })
  drain :
      (w : World) (desc caller : String) (t : GateToken) (g : WriteGate)
      → enter desc true caller w.gate ≡ admitted t g
      → Step w (record w { gate = g; exempt = t.id ∷ w.exempt })
  finish : (w : World) (i : ℕ) → i < w.gate.next_token → Step w (record w { gate = leave i w.gate })
  freeze_call :
      (w : World) (expired : Bool) (s : FreezeStep) (g : WriteGate) (n : ℕ)
      → freeze_begin expired w.gate ≡ (s, g)
      → n ≡ (elim s [ waiting ↦ w.freezers + 1 | _ ↦ w.freezers ])
      → Step w (record w { gate = g; freezers = n })
  freeze_wake :
      (w : World) (expired : Bool) (s : FreezeStep) (g : WriteGate) (n : ℕ)
      → 0 < w.freezers
      → freeze_round expired w.gate ≡ (s, g)
      → n ≡ (elim s [ waiting ↦ w.freezers | _ ↦ w.freezers - 1 ])
      → Step w (record w { gate = g; freezers = n })
  thawing : (w : World) → Step w (record w { gate = thaw w.gate })
  report :
      (w : World) (j : Option (List ℕ × Option String))
      → Step w (record w { gate = record (w.gate) { journal_status = j } })

pub data Reach (s : World) : World → Type 0 where
  here : Reach s s
  next : {t u : World} → Reach s t → Step t u → Reach s u

-- While the store is frozen, every write in flight is the replicator's.
pub record IsDrained (w : World) : Type 0 where
  pub formed : IsWellFormed w.gate
  pub drained : w.gate.frozen ≡ true → All (λ t. contains w.exempt t.id ≡ true) w.gate.in_flight

-- The gate of a store when it is first named.
abbrev pub start :
    (String → Bool) → (String → Bool) → String → Option (List ℕ × Option String) → World
start readonly freeze_file name j = record {
  gate = apply_start_state readonly freeze_file name (new_gate (some name) j);
  exempt = [];
  freezers = 0;
}

pub start-IsDrained :
    (readonly freeze_file : String → Bool) (name : String) (j : Option (List ℕ × Option String))
    → IsDrained (start readonly freeze_file name j)
unfolding apply_start_state new_gate freeze_at_start
start-IsDrained readonly freeze_file name j =
    elim (Bool-cases (readonly name || freeze_file name)) [
      | inl e ↦ rw e (record {
        formed = record { flying = tt; gone = tt; distinct = tt; live = tt };
        drained = λ _. tt;
      })
      | inr e ↦ rw e (record {
        formed = record { flying = tt; gone = tt; distinct = tt; live = tt };
        drained = λ _. tt;
      })
    ]

KeepsTokens-IsWellFormed : (g g' : WriteGate) → KeepsTokens g g' → IsWellFormed g → IsWellFormed g'
KeepsTokens-IsWellFormed g g' k w = record {
  flying = rw (k.in_flight, k.next_token) w.flying;
  gone = rw (k.released, k.next_token) w.gone;
  distinct = rw k.in_flight w.distinct;
  live = rw (k.in_flight, k.released) w.live;
}

freeze-drained :
    (is : List ℕ) (g g' : WriteGate)
    → KeepsTokens g g'
    → (g.frozen ≡ true → All (λ t. contains is t.id ≡ true) g.in_flight)
    → (g.frozen ≡ true) ⊎ (g'.in_flight ≡ [])
    → All (λ t. contains is t.id ≡ true) g'.in_flight
freeze-drained is g g' k d (inl was) = rw k.in_flight (d was)
freeze-drained is g g' k d (inr e) = rw e tt

write-not_frozen :
    (desc caller : String) (g g' : WriteGate) (t : GateToken)
    → enter desc false caller g ≡ admitted t g'
    → g'.frozen ≡ false
unfolding enter
write-not_frozen desc caller g g' t e = ground arith

All-more :
    (i : ℕ) (is : List ℕ) (ts : List GateToken)
    → All (λ t. contains is t.id ≡ true) ts
    → All (λ t. contains (i ∷ is) t.id ≡ true) ts
All-more i is [] h = tt
All-more i is (t ∷ ts) h = (ground arith, All-more i is ts h.1)

drain-drained :
    (desc caller : String) (w : World) (t : GateToken) (g : WriteGate)
    → enter desc true caller w.gate ≡ admitted t g
    → (w.gate.frozen ≡ true → All (λ t. contains w.exempt t.id ≡ true) w.gate.in_flight)
    → g.frozen ≡ true
    → All (λ u. contains (t.id ∷ w.exempt) u.id ≡ true) g.in_flight
drain-drained desc caller w t g e d h =
    let (same, shape) = enter_admits desc caller true w.gate g t e in
    let was : w.gate.frozen ≡ true = ap (λ (x : WriteGate). x.frozen) (sym shape) ∙ h in
    subst (λ (x : WriteGate). All (λ u. contains (t.id ∷ w.exempt) u.id ≡ true) x.in_flight)
      (sym shape) (ground arith, All-more t.id w.exempt w.gate.in_flight (d was))

leave-drained :
    (is : List ℕ) (i : ℕ) (g : WriteGate)
    → (g.frozen ≡ true → All (λ t. contains is t.id ≡ true) g.in_flight)
    → (leave i g).frozen ≡ true
    → All (λ t. contains is t.id ≡ true) (leave i g).in_flight
unfolding leave
leave-drained is i g d h = elim (Bool-cases (contains g.released i)) [
  | inl old ↦ rw old (d (ground arith))
  | inr new ↦ rw new (All-pop_token (λ t. contains is t.id ≡ true) i g.in_flight (d (ground arith)))
]

Step-IsDrained : {w w' : World} → Step w w' → IsDrained w → IsDrained w'
unfolding thaw
Step-IsDrained (write w desc caller t g e) d = record {
  formed = enter-IsWellFormed desc caller false w.gate g t d.formed e;
  drained = λ h. cc (write-not_frozen desc caller w.gate g t e);
}
Step-IsDrained (drain w desc caller t g e) d = record {
  formed = enter-IsWellFormed desc caller true w.gate g t d.formed e;
  drained = λ h. drain-drained desc caller w t g e d.drained h;
}
Step-IsDrained (finish w i h) d = record {
  formed = leave-IsWellFormed i w.gate h d.formed;
  drained = λ h. leave-drained w.exempt i w.gate d.drained h;
}
Step-IsDrained (freeze_call w expired s g n e m) d = record {
  formed =
      KeepsTokens-IsWellFormed w.gate g (freeze_begin-KeepsTokens expired w.gate g s e) d.formed;
  drained = λ h.
      freeze-drained w.exempt w.gate g (freeze_begin-KeepsTokens expired w.gate g s e) d.drained
        (freeze_begin-frozen expired w.gate g s e h);
}
Step-IsDrained (freeze_wake w expired s g n p e m) d = record {
  formed =
      KeepsTokens-IsWellFormed w.gate g (freeze_round-KeepsTokens expired w.gate g s e) d.formed;
  drained = λ h.
      freeze-drained w.exempt w.gate g (freeze_round-KeepsTokens expired w.gate g s e) d.drained
        (freeze_round-frozen expired w.gate g s e h);
}
Step-IsDrained (thawing w) d = record {
  formed = record {
    flying = d.formed.flying;
    gone = d.formed.gone;
    distinct = d.formed.distinct;
    live = d.formed.live;
  };
  drained = λ h. cc;
}
Step-IsDrained (report w j) d = record {
  formed = record {
    flying = d.formed.flying;
    gone = d.formed.gone;
    distinct = d.formed.distinct;
    live = d.formed.live;
  };
  drained = d.drained;
}

Reach-IsDrained : {s w : World} → IsDrained s → Reach s w → IsDrained w
Reach-IsDrained d here = d
Reach-IsDrained d (next r st) = Step-IsDrained st (Reach-IsDrained d r)

-- From the start of a store, after any interleaving of ordinary writers, the replicator, freezers
-- and thaws: while the gate is frozen, every write in flight entered by the replicator's exemption.
pub frozen_barrier :
    (readonly freeze_file : String → Bool) (name : String) (j : Option (List ℕ × Option String))
    {w : World}
    → Reach (start readonly freeze_file name j) w
    → w.gate.frozen ≡ true
    → All (λ t. contains w.exempt t.id ≡ true) w.gate.in_flight
frozen_barrier readonly freeze_file name j r =
    (Reach-IsDrained (start-IsDrained readonly freeze_file name j) r).drained

begin-done-frozen :
    (expired : Bool) (g g' : WriteGate) → freeze_begin expired g ≡ (done, g') → g'.frozen ≡ true
unfolding freeze_begin
begin-done-frozen expired g g' e = ground arith
