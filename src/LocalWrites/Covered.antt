-- ===== src/LocalWrites/Covered.antt =====
-- The gate token of a writer connection of memora/backends.py under one statement.
use memora.Prelude.{
  ℕ, String, ◌≡◌, refl, sym, subst, ◌⊎◌, inl, inr, Bool, true, false, not, ◌||◌, none, some, arith,
  any, nat_eq, nat_eq_refl, Bool-cases,
}
use memora.Prelude.Text.{Text}
use memora.WriteGate.{WriteGate, Entered, admitted, refused, enter}
use memora.WriteGate.Admission.{enter_admits}
use memora.SqlClassify.Tokens.{CharTables}
use memora.SqlClassify.Classify.{classify_statement}
use memora.LocalWrites.Engine.{Engine}
use memora.LocalWrites.Connection.{
  Connection, execute, gate_before, gate_after, idle, passes_freely, admit_statement, on_engine,
  or_kind, tell, statement,
}

-- What is documented of transactions that SQLite opens: a statement that reads or ends a transaction
-- opens none, and neither does the end of one.
pub record OpensOnlyByWrites (e : Engine) (u : CharTables) : Type 0 where
  pub free_stays :
      (sql : Text) (s : e.S)
      → passes_freely u sql ≡ true
      → e.in_transaction s ≡ false
      → e.in_transaction (e.execute sql s).1 ≡ false
  pub commit_stays :
      (s : e.S) → e.in_transaction s ≡ false → e.in_transaction (e.commit s).1 ≡ false
  pub rollback_stays :
      (s : e.S) → e.in_transaction s ≡ false → e.in_transaction (e.rollback s).1 ≡ false
  pub exit_stays :
      (failed : Bool) (s : e.S)
      → e.in_transaction s ≡ false
      → e.in_transaction (e.exit failed s).1 ≡ false

-- The token `i` is among the writes in flight.
abbrev pub flies : ℕ → WriteGate → Bool
flies i g = any (λ t. nat_eq t.id i) g.in_flight

module _ (e : Engine) (u : CharTables) (spell : Text → String) where
  -- The connection is in no transaction and has no token, or it is in one and its token is in flight.
  abbrev pub Covered : Connection e u spell → Type 0
  Covered c =
      ((idle e u spell c ≡ true) × (c.token ≡ none))
      ⊎ ((i : ℕ) × (idle e u spell c ≡ false) × (c.token ≡ some i) × (flies i c.gate ≡ true))

  gate_after-Covered :
      (c : Connection e u spell) (i : ℕ)
      → c.token ≡ some i
      → flies i c.gate ≡ true
      → Covered (gate_after e u spell c)
  unfolding gate_after
  gate_after-Covered c i has fly = elim (Bool-cases (idle e u spell c)) [
    | inl free ↦ rw (free, has) (inl (free, refl))
    | inr busy ↦ rw busy (inr (i, busy, has, fly))
  ]

  gate_after-none :
      (c : Connection e u spell)
      → idle e u spell c ≡ true
      → c.token ≡ none
      → gate_after e u spell c ≡ c
  unfolding gate_after
  gate_after-none c free none_held = ground arith

  gate_after-idle :
      (c : Connection e u spell)
      → idle e u spell c ≡ true
      → c.token ≡ none
      → Covered (gate_after e u spell c)
  gate_after-idle c free none_held =
      subst Covered (sym (gate_after-none c free none_held)) (inl (free, none_held))

  stays_idle :
      (closed : Bool) {s s' : e.S}
      → (e.in_transaction s ≡ false → e.in_transaction s' ≡ false)
      → (closed || not (e.in_transaction s)) ≡ true
      → (closed || not (e.in_transaction s')) ≡ true
  stays_idle true stays h = refl
  stays_idle false {s} {s'} stays h = elim (Bool-cases (e.in_transaction s)) [
    | inl busy ↦ cc (rw busy at h)
    | inr free ↦ rw (stays free) refl
  ]

  -- An operation of the engine on a covered connection, which opens no transaction by itself.
  pub on_engine-Covered :
      (c : Connection e u spell) (r : Bool × e.S)
      → (e.in_transaction c.engine ≡ false → e.in_transaction r.1 ≡ false)
      → Covered c
      → Covered (on_engine e u spell r c).1
  on_engine-Covered c (ok, s) stays (inl (free, none_held)) =
      gate_after-idle (record c { engine = s }) (stays_idle c.closed stays free) none_held
  on_engine-Covered c (ok, s) stays (inr (i, busy, has, fly)) =
      gate_after-Covered (record c { engine = s }) i has fly

  pub tell-Covered : (r : Bool × Connection e u spell) → Covered r.1 → Covered (tell e u spell r).1
  tell-Covered (true, c) v = v
  tell-Covered (false, c) v = v

  -- A statement that the gate was asked about: it is refused, or goes to the engine with a token that is
  -- in flight.
  admitted-Covered :
      (sql : Text) (desc : String) (c : Connection e u spell) (d : Entered)
      → enter desc false "memora.backends" c.gate ≡ d
      → Covered c
      → Covered (statement e u spell sql (admit_statement e u spell c d)).1
  admitted-Covered sql desc c (refused why) h v = v
  admitted-Covered sql desc c (admitted t g) h v =
      let (same, shape) = enter_admits desc "memora.backends" false c.gate g t h in
      gate_after-Covered
        (record c { engine = (e.execute sql c.engine).1; gate = g; token = some t.id }) t.id refl
        (subst (λ x. flies t.id x ≡ true) (sym shape) (rw (nat_eq_refl t.id) refl))

  gate_before-held :
      (sql : Text) (c : Connection e u spell) (i : ℕ)
      → c.token ≡ some i
      → gate_before e u spell sql c ≡ (true, c)
  unfolding gate_before
  gate_before-held sql c i has = ground arith

  gate_before-free :
      (sql : Text) (c : Connection e u spell)
      → passes_freely u sql ≡ true
      → gate_before e u spell sql c ≡ (true, c)
  unfolding gate_before
  gate_before-free sql c freely = ground arith

  -- The gate's answer to a statement that needs a token.
  abbrev pub asked : Text → Connection e u spell → Entered
  asked sql c =
      let k = classify_statement u sql in
      enter (spell (or_kind k.main k.kind)) false "memora.backends" c.gate

  pub gate_before-asked :
      (sql : Text) (c : Connection e u spell)
      → c.replicator ≡ false
      → c.token ≡ none
      → passes_freely u sql ≡ false
      → gate_before e u spell sql c ≡ admit_statement e u spell c (asked sql c)
  unfolding gate_before
  gate_before-asked sql c plain none_held gated = ground arith

  pub execute-Covered :
      OpensOnlyByWrites e u
      → (sql : Text) (c : Connection e u spell) → c.replicator ≡ false
      → Covered c
      → Covered (execute e u spell sql c).1
  unfolding execute
  execute-Covered law sql c plain (inr (i, busy, has, fly)) =
      rw (gate_before-held sql c i has)
        (gate_after-Covered (record c { engine = (e.execute sql c.engine).1 }) i has fly)
  execute-Covered law sql c plain (inl (free, none_held)) =
      elim (Bool-cases (passes_freely u sql)) [
        | inl freely ↦ rw (gate_before-free sql c freely) (
            on_engine-Covered c (e.execute sql c.engine) (law.free_stays sql c.engine freely)
              (inl (free, none_held)))
        | inr gated ↦
            let k = classify_statement u sql in
            rw (gate_before-asked sql c plain none_held gated) (
              admitted-Covered sql (spell (or_kind k.main k.kind)) c (asked sql c) refl
                (inl (free, none_held)))
      ]
