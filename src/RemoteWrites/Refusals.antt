-- ===== src/RemoteWrites/Refusals.antt =====
-- The refused statements of memora/backends.py.
use memora.Prelude.{ℕ, true, false, none, List, ◌≡◌, refl, Bool-cases, inl, inr, ◌||◌, ◌∙◌}
use memora.Prelude.Text.{Text}
use memora.WriteGate.{Entered, admitted, refused, store_read_only, state_locked, enter}
use memora.IntentJournal.Ops.{Journal, Appended, appended, failed, append_intent, is_some}
use memora.SqlClassify.Classify.{classify_statement, is_read}
use memora.RemoteWrites.Connection.{
  Api, Connection, Reply, StatementIo, Outcome, answered, read_only_connection, not_admitted,
  not_journaled, not_sent, refused_by_store, unknown_outcome, Prepared, ready, stopped, prepare,
  status, perform, execute_api, gate_now, request_of, of_sent, admitted_write, Sent, answer,
  definite_error, other_error, conclude, journaled,
}

-- The outcomes that tell the caller that nothing was sent.
abbrev pub IsRefusal : (api : Api) → Outcome api → Type 0
IsRefusal api (answered rest) = ⊥
IsRefusal api read_only_connection = Unit
IsRefusal api (not_admitted e) = Unit
IsRefusal api (not_journaled e) = Unit
IsRefusal api not_sent = Unit
IsRefusal api refused_by_store = ⊥
IsRefusal api unknown_outcome = ⊥

module _ (api : Api) where
  -- Up to the last check nothing is sent, and the gate is left alone.
  pub prepare-keeps :
      (sql : Text) (params : List Text) (io : StatementIo) (others : Journal → Journal)
      (c : Connection)
      → ((prepare api sql params io others c).1.transport ≡ c.transport)
        × ((prepare api sql params io others c).1.gate ≡ c.gate)
  unfolding prepare
  prepare-keeps sql params io others c =
      go (append_intent api.codec api.threshold (request_of api sql params io) io.append c.journal)
    where
      go :
          (a : Appended × Journal)
          → ((journaled api others io c a).1.transport ≡ c.transport)
            × ((journaled api others io c a).1.gate ≡ c.gate)
      go (failed e, j) = (refl, refl)
      go (appended i, j) = elim (Bool-cases (is_some (status api (others j)).1)) [
        | inl bad ↦ rw bad (refl, refl)
        | inr good ↦ rw good (refl, refl)
      ]

  -- A statement that was prepared ends with an outcome of a request that was sent.
  conclude-sent :
      (i : ℕ) (io : StatementIo) (s : Sent) (c : Connection)
      → ¬ IsRefusal api (conclude api i io s c).0
  unfolding conclude
  conclude-sent i io (answer rest) c h = h
  conclude-sent i io definite_error c h = h
  conclude-sent i io other_error c h = h

  perform-refused :
      (sql : Text) (params : List Text) (io : StatementIo) (r : Reply) (others : Journal → Journal)
      (p : Prepared api) (c : Connection)
      → IsRefusal api (perform api sql params io r others (p, c)).0
      → (perform api sql params io r others (p, c)).1.transport ≡ c.transport
  perform-refused sql params io r others (stopped o) c h = refl
  perform-refused sql params io r others (ready i) c h = absurd (conclude-sent i io _ _ h)

  -- A read's outcome is no refusal.
  of_sent-sent : (s : Sent) → ¬ IsRefusal api (of_sent api s)
  of_sent-sent (answer rest) h = h
  of_sent-sent definite_error h = h
  of_sent-sent other_error h = h

  admitted_write-refused :
      (sql : Text) (params : List Text) (io : StatementIo) (r : Reply)
      (between during : Journal → Journal) (c : Connection) (e : Entered)
      → IsRefusal api (admitted_write api sql params io r between during c e).0
      → (admitted_write api sql params io r between during c e).1.transport ≡ c.transport
  admitted_write-refused sql params io r between during c (refused e) h = refl
  admitted_write-refused sql params io r between during c (admitted t g) h =
      let p = prepare api sql params io between (record c { gate = g }) in
      perform-refused sql params io r during p.0 p.1 h
      ∙ (prepare-keeps sql params io between (record c { gate = g })).0

  -- When the caller is told that a statement was refused, whether by a read-only connection, by the
  -- gate, by the journal, or by the check before the send, then the transport is as before: no request
  -- was handed to a socket.
  pub execute_api-refused :
      (sql : Text) (params : List Text) (io : StatementIo) (r : Reply)
      (between during : Journal → Journal) (c : Connection)
      → IsRefusal api (execute_api api sql params io r between during c).0
      → (execute_api api sql params io r between during c).1.transport ≡ c.transport
  unfolding execute_api
  execute_api-refused sql params io r between during c h =
      let k = classify_statement api.tables sql in
      elim (Bool-cases (is_read k.kind)) [
        | inl reads ↦ absurd (of_sent-sent _ (simp reads at h))
        | inr writes ↦ elim (Bool-cases (is_some c.read_only_reason)) [
          | inl shut ↦ simp (writes, shut) refl
          | inr usable ↦
              simp (writes, usable)
                (admitted_write-refused sql params io r between during c _
                  (simp (writes, usable) at h))
        ]
      ]

  -- While the gate is frozen or draining, a statement that is not a read is refused with the gate's
  -- state, and changes nothing: neither the journal, nor the transport, nor the gate.
  pub execute_api-frozen :
      (sql : Text) (params : List Text) (io : StatementIo) (r : Reply)
      (between during : Journal → Journal) (c : Connection)
      → is_read (classify_statement api.tables sql).kind ≡ false
      → c.read_only_reason ≡ none
      → (c.gate.frozen || c.gate.draining) ≡ true
      → execute_api api sql params io r between during c
        ≡ (not_admitted (store_read_only (state_locked (gate_now api c))), c)
  unfolding execute_api enter
  execute_api-frozen sql params io r between during c writes usable shut =
      simp (writes, usable, shut) refl
