-- ===== src/LocalWrites/Begins.antt =====
-- The beginning, the commit and the rollback of a transaction in memora/backends.py.
use memora.Prelude.{
  ℕ, String, ◌≡◌, refl, ap, ◌∙◌, inl, inr, Bool, true, false, ◌||◌, Option, some, none, arith,
  Bool-cases,
}
use memora.Prelude.Text.{Text}
use memora.WriteGate.{Entered, admitted, refused}
use memora.SqlClassify.Tokens.{CharTables}
use memora.LocalWrites.Engine.{Engine, IsTransactional, begin_immediate}
use memora.LocalWrites.Connection.{
  Connection, execute, gate_before, gate_after, idle, holds, commit_now, rollback_now,
  passes_freely, give_back, admit_statement, on_engine, statement,
}
use memora.LocalWrites.Bodies.{gate_after-open}

module _ (e : Engine) (u : CharTables) (spell : Text → String) where
  gate_after-engine : (c : Connection e u spell) → (gate_after e u spell c).engine ≡ c.engine
  unfolding gate_after
  gate_after-engine c = elim (Bool-cases (idle e u spell c)) [
    | inr busy ↦ rw busy refl
    | inl free ↦ rw free (go c.token)
  ]
    where
      go : (t : Option ℕ) → (give_back e u spell t c).engine ≡ c.engine
      go none = refl
      go (some t) = refl

  pub rollback_now-committed :
      IsTransactional e
      → (c : Connection e u spell)
      → e.committed (rollback_now e u spell c).1.engine ≡ e.committed c.engine
  unfolding rollback_now
  rollback_now-committed law c =
      ap e.committed (gate_after-engine (record c { engine = (e.rollback c.engine).1 }))
      ∙ law.rollback_commits_nothing c.engine

  pub commit_now_lem :
      (c : Connection e u spell)
      → ((commit_now e u spell c).0 ≡ (e.commit c.engine).0)
        × ((commit_now e u spell c).1.engine ≡ (e.commit c.engine).1)
  unfolding commit_now
  commit_now_lem c =
      let same = gate_after-engine (record c { engine = (e.commit c.engine).1 }) in
      elim (Bool-cases (e.commit c.engine).0) [
        | inl ok ↦ simp ok (refl, same)
        | inr bad ↦ simp bad (refl, same)
      ]

  gate_after-closed : (c : Connection e u spell) → (gate_after e u spell c).closed ≡ c.closed
  unfolding gate_after
  gate_after-closed c = elim (Bool-cases (idle e u spell c)) [
    | inr busy ↦ rw busy refl
    | inl free ↦ rw free (go c.token)
  ]
    where
      go : (t : Option ℕ) → (give_back e u spell t c).closed ≡ c.closed
      go none = refl
      go (some t) = refl

  pub commit_now-closed : (c : Connection e u spell) → (commit_now e u spell c).1.closed ≡ c.closed
  unfolding commit_now
  commit_now-closed c =
      let same = gate_after-closed (record c { engine = (e.commit c.engine).1 }) in
      elim (Bool-cases (e.commit c.engine).0) [ inl ok ↦ simp ok same | inr bad ↦ simp bad same ]

  -- A statement that the gate lets in.
  record LetIn (c c' : Connection e u spell) : Type 0 where
    engine : c'.engine ≡ c.engine
    alive : c'.closed ≡ c.closed
    held : (c'.replicator || holds c'.token) ≡ true

  abbrev Answers : Connection e u spell → Bool × Connection e u spell → Type 0
  Answers c (true, c') = LetIn c c'
  Answers c (false, c') = c' ≡ c

  admit_statement-Answers :
      (c : Connection e u spell) (d : Entered) → Answers c (admit_statement e u spell c d)
  admit_statement-Answers c (refused why) = refl
  admit_statement-Answers c (admitted t g) = record {
    engine = refl;
    alive = refl;
    held = ground arith;
  }

  gate_before-Answers :
      (sql : Text) (c : Connection e u spell)
      → passes_freely u sql ≡ false
      → Answers c (gate_before e u spell sql c)
  unfolding gate_before
  gate_before-Answers sql c gated = elim (Bool-cases (c.replicator || holds c.token)) [
    | inl free ↦ simp free (record { engine = refl; alive = refl; held = free })
    | inr bound ↦ simp (bound, gated) (admit_statement-Answers c _)
  ]

  -- The transaction is open, and nothing has changed.
  pub record Begun (c c' : Connection e u spell) : Type 0 where
    pub opened : e.in_transaction c'.engine ≡ true
    pub contents : e.pending c'.engine ≡ e.pending c.engine
    pub visible : e.committed c'.engine ≡ e.committed c.engine
    pub alive : c'.closed ≡ false
    pub held : (c'.replicator || holds c'.token) ≡ true

  -- What BEGIN answers on a connection in no transaction.
  abbrev pub Begins : Connection e u spell → Bool × Connection e u spell → Type 0
  Begins c (true, c') = Begun c c'
  Begins c (false, c') = e.committed c'.engine ≡ e.committed c.engine

  module _ (law : IsTransactional e) (begin_gated : passes_freely u begin_immediate ≡ false) where
    ran-Begins :
        (c c' : Connection e u spell)
        → c.closed ≡ false
        → e.in_transaction c.engine ≡ false
        → LetIn c c'
        → Begins c (on_engine e u spell (e.execute begin_immediate c'.engine) c')
    ran-Begins c c' alive free l =
        let s = e.execute begin_immediate c'.engine in
        let free' : e.in_transaction c'.engine ≡ false = ap e.in_transaction l.engine ∙ free in
        let ends : Connection e u spell = record c' { engine = s.1 } in
        let visible = law.begin_commits_nothing c'.engine ∙ ap e.committed l.engine in
        elim (Bool-cases s.0) [
          | inr bad ↦ simp bad (ap e.committed (gate_after-engine ends) ∙ visible)
          | inl ok ↦
              let did = law.begins c'.engine free' ok in
              simp (ok, gate_after-open e u spell ends (l.alive ∙ alive) did.0)
                (record {
                  opened = did.0;
                  contents = did.1 ∙ ap e.pending l.engine;
                  visible = visible;
                  alive = l.alive ∙ alive;
                  held = l.held;
                })
        ]

    pub execute-Begins :
        (c : Connection e u spell)
        → c.closed ≡ false
        → e.in_transaction c.engine ≡ false
        → Begins c (execute e u spell begin_immediate c)
    unfolding execute
    execute-Begins c alive free =
        go (gate_before e u spell begin_immediate c)
          (gate_before-Answers begin_immediate c begin_gated)
      where
        go :
            (r : Bool × Connection e u spell)
            → Answers c r
            → Begins c (statement e u spell begin_immediate r)
        go (true, c') l = ran-Begins c c' alive free l
        go (false, c') same = ap (λ (x : Connection e u spell). e.committed x.engine) same
