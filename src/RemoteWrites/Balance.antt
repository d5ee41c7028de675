-- ===== src/RemoteWrites/Balance.antt =====
-- The gate tokens of the statements of memora/backends.py.
use memora.Prelude.{
  ℕ, ◌≡◌, refl, sym, ap, ◌∙◌, subst, false, List, Bool-cases, inl, inr, arith, Option, String,
}
use memora.Prelude.Text.{Text}
use memora.WriteGate.{WriteGate, GateToken, Entered, admitted, refused, enter, leave}
use memora.WriteGate.Admission.{
  IsWellFormed, enter-IsWellFormed, leave-IsWellFormed, leave-enter, enter_admits,
}
use memora.IntentJournal.Ops.{Journal, is_some}
use memora.SqlClassify.Classify.{classify_statement, is_read}
use memora.RemoteWrites.Connection.{
  Api, Connection, Reply, StatementIo, Prepared, ready, stopped, prepare, perform, execute_api,
  gate_now, admitted_write, Sent, answer, definite_error, other_error, conclude, send, desc_of,
  kind_name,
}
use memora.RemoteWrites.Sends.{send-keeps}
use memora.RemoteWrites.Refusals.{prepare-keeps}

module _ (api : Api) where
  conclude-gate :
      (i : ℕ) (io : StatementIo) (s : Sent) (c : Connection)
      → (conclude api i io s c).1.gate ≡ c.gate
  unfolding conclude
  conclude-gate i io (answer rest) c = refl
  conclude-gate i io definite_error c = refl
  conclude-gate i io other_error c = refl

  perform-gate :
      (sql : Text) (params : List Text) (io : StatementIo) (r : Reply) (others : Journal → Journal)
      (p : Prepared api) (c : Connection)
      → (perform api sql params io r others (p, c)).1.gate ≡ c.gate
  perform-gate sql params io r others (stopped o) c = refl
  perform-gate sql params io r others (ready i) c =
      let (s, c') = send api sql params r c in
      conclude-gate i io s (record c' { journal = others c'.journal })
      ∙ (send-keeps api sql params r c).0

  -- The gate of a statement that was let in.
  performed-gate :
      (sql : Text) (params : List Text) (io : StatementIo) (r : Reply)
      (between during : Journal → Journal) (c : Connection)
      → (perform api sql params io r during (prepare api sql params io between c)).1.gate ≡ c.gate
  performed-gate sql params io r between during c =
      let p = prepare api sql params io between c in
      perform-gate sql params io r during p.0 p.1 ∙ (prepare-keeps api sql params io between c).1

  -- The number of the next token may grow; the rest of the book-keeping is kept.
  pub record Balanced (g g' : WriteGate) : Type 0 where
    pub well : IsWellFormed g'
    pub flying : g'.in_flight ≡ g.in_flight

  status_IsWellFormed :
      (g : WriteGate) (o : Option (List ℕ × Option String))
      → IsWellFormed g
      → IsWellFormed (record g { journal_status = o })
  status_IsWellFormed g o w = record {
    flying = w.flying;
    gone = w.gone;
    distinct = w.distinct;
    live = w.live;
  }

  entered-Balanced :
      (desc : String) (g g' : WriteGate) (t : GateToken)
      → IsWellFormed g
      → enter desc false "memora.backends" g ≡ admitted t g'
      → Balanced g (leave t.id g')
  entered-Balanced desc g g' t w e =
      let (same, shape) = enter_admits desc "memora.backends" false g g' t e in
      record {
        well =
            leave-IsWellFormed t.id g'
              (let n = ap (λ (x : WriteGate). x.next_token) shape in omega arith)
              (enter-IsWellFormed desc "memora.backends" false g g' t w e);
        flying = leave-enter desc "memora.backends" false g g' t w e;
      }

  admitted_write-Balanced :
      (desc : String) (sql : Text) (params : List Text) (io : StatementIo) (r : Reply)
      (between during : Journal → Journal) (c : Connection) (e : Entered)
      → IsWellFormed c.gate
      → enter desc false "memora.backends" (gate_now api c) ≡ e
      → Balanced c.gate (admitted_write api sql params io r between during c e).1.gate
  admitted_write-Balanced desc sql params io r between during c (refused e) w h = record {
    well = w;
    flying = refl;
  }
  admitted_write-Balanced desc sql params io r between during c (admitted t g) w h =
      let b = entered-Balanced desc (gate_now api c) g t (status_IsWellFormed c.gate _ w) h in
      subst (λ x. Balanced c.gate (leave t.id x))
        (sym (performed-gate sql params io r between during (record c { gate = g })))
        (record { well = b.well; flying = b.flying })

  -- However a statement ends, its write is no longer in flight at the gate, the writes of others that
  -- were in flight still are, and the gate's book-keeping is kept: no path leaks a token.
  pub execute_api-Balanced :
      (sql : Text) (params : List Text) (io : StatementIo) (r : Reply)
      (between during : Journal → Journal) (c : Connection)
      → IsWellFormed c.gate
      → Balanced c.gate (execute_api api sql params io r between during c).1.gate
  unfolding execute_api
  execute_api-Balanced sql params io r between during c w =
      let k = classify_statement api.tables sql in
      elim (Bool-cases (is_read k.kind)) [
        | inl reads ↦ simp reads (
            subst (Balanced c.gate) (sym (send-keeps api sql params r c).0)
              (record { well = w; flying = refl }))
        | inr writes ↦ elim (Bool-cases (is_some c.read_only_reason)) [
          | inl shut ↦ simp (writes, shut) (record { well = w; flying = refl })
          | inr usable ↦
              simp (writes, usable)
                (admitted_write-Balanced (desc_of api k.main (kind_name api k.kind)) sql params io r
                  between during c _ w refl)
        ]
      ]
