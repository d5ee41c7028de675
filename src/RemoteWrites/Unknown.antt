-- ===== src/RemoteWrites/Unknown.antt =====
-- What memora/backends.py leaves in the journal when a write is sent, and when its outcome is unknown.
use memora.Prelude.{
  ℕ, ◌<◌, ◌≡◌, refl, sym, ap, ◌∙◌, subst, true, false, some, List, ◌++◌, arith, Bool-cases, inl,
  inr, lookup, lookup-insert_self, ℕ_comparable,
}
use memora.Prelude.Text.{Text}
use memora.WriteGate.{Entered, admitted, refused}
use memora.IntentJournal.Record.{Memory}
use memora.IntentJournal.Lines.{IsLine}
use memora.IntentJournal.Ops.{
  Journal, Appended, appended, failed, append_intent, intent_record, is_some,
}
use memora.IntentJournal.Replay.{replay, replayed}
use memora.IntentJournal.Opening.{open_journal}
use memora.IntentJournal.Safety.{Reach, next, append, restart-Covers, append_intent_returns}
use memora.SqlClassify.Classify.{classify_statement, is_read}
use memora.RemoteWrites.Connection.{
  Api, Connection, Reply, StatementIo, Outcome, unknown_outcome, Prepared, ready, stopped, prepare,
  recheck, status, perform, execute_api, request_of, admitted_write, Sent, answer, definite_error,
  other_error, conclude, send, journaled,
}
use memora.RemoteWrites.Sends.{send-keeps}
use memora.RemoteWrites.Refusals.{prepare-keeps, IsRefusal}
use memora.RemoteWrites.Others.{Rivals, Rivals-Frame, Rivals-Reach}

module _ (api : Api) (file : List ℕ) where
  abbrev pub Run : Journal → Type 0
  Run j = Reach api.codec api.threshold (open_journal api.codec true file) j

  -- The intent `i` of the statement is open in the journal, which was reached from the file.
  record Holds (i : ℕ) (sql : Text) (params : List Text) (io : StatementIo) (j : Journal)
      : Type 0 where
    run : Run j
    old : i < j.memory.next_id
    found : lookup i j.memory.open_set ≡ some (intent_record i (request_of api sql params io))

  Holds-Rivals :
      {i : ℕ} {sql : Text} {params : List Text} {io : StatementIo} {j l : Journal}
      → Rivals api.codec api.threshold i j l
      → Holds i sql params io j
      → Holds i sql params io l
  Holds-Rivals {i} r h =
      let f = Rivals-Frame api.codec api.threshold i r h.old in
      record {
        run = Rivals-Reach api.codec api.threshold i h.run r;
        old = omega (arith, h.old, f.grows);
        found = f.same ∙ h.found;
      }

  appended-Holds :
      (i : ℕ) (sql : Text) (params : List Text) (io : StatementIo) (j k : Journal)
      → Run j
      → append_intent api.codec api.threshold (request_of api sql params io) io.append j
        ≡ (appended i, k)
      → (i ≡ j.memory.next_id) × Holds i sql params io k
  appended-Holds i sql params io j k run e =
      let (same, did) =
        append_intent_returns api.codec api.threshold (request_of api sql params io) io.append j k i
          e in
      (
        same,
        record {
          run =
              subst Run (ap (λ (p : Appended × Journal). p.1) e)
                (next run (append j (request_of api sql params io) io.append));
          old = omega (arith, did.counted);
          found =
              ap (λ o. lookup i o) did.opened
              ∙ rw (← same) (
                  lookup-insert_self i (intent_record i (request_of api sql params io))
                    j.memory.open_set);
        },
      )

  recheck-ready :
      (i i' : ℕ) (io : StatementIo) (c c' : Connection)
      → recheck api i io c ≡ (ready i', c')
      → (i ≡ i') × (c' ≡ c)
  unfolding recheck
  recheck-ready i i' io c c' e = elim (Bool-cases (is_some (status api c.journal).1)) [
    | inl bad ↦ cc (simp bad at e)
    | inr good ↦ let e' = simp good at e in (cc e', cc e')
  ]

  journaled-Holds :
      (i : ℕ) (sql : Text) (params : List Text) (io : StatementIo) (others : Journal → Journal)
      (c c' : Connection) (a : Appended × Journal)
      → Run c.journal
      → ((j : Journal) → Rivals api.codec api.threshold c.journal.memory.next_id j (others j))
      → append_intent api.codec api.threshold (request_of api sql params io) io.append c.journal ≡ a
      → journaled api others io c a ≡ (ready i, c')
      → (i ≡ c.journal.memory.next_id) × Holds i sql params io c'.journal
  journaled-Holds i sql params io others c c' (failed e, j) run fair did h = cc h
  journaled-Holds i sql params io others c c' (appended k, j) run fair did h =
      let (same, shape) = recheck-ready k i io (record c { journal = others j }) c' h in
      let (first, holds) = appended-Holds k sql params io c.journal j run did in
      let at_i : Holds i sql params io j = subst (λ n. Holds n sql params io j) same holds in
      let is_first : i ≡ c.journal.memory.next_id = sym same ∙ first in
      (
        is_first,
        subst (λ l. Holds i sql params io l) (sym (ap (λ (d : Connection). d.journal) shape))
            (Holds-Rivals
              (subst (λ n. Rivals api.codec api.threshold n j (others j)) (sym is_first) (fair j))
              at_i),
      )

  prepare-Holds :
      (i : ℕ) (sql : Text) (params : List Text) (io : StatementIo) (others : Journal → Journal)
      (c c' : Connection)
      → Run c.journal
      → ((j : Journal) → Rivals api.codec api.threshold c.journal.memory.next_id j (others j))
      → prepare api sql params io others c ≡ (ready i, c')
      → (i ≡ c.journal.memory.next_id) × Holds i sql params io c'.journal
  unfolding prepare
  prepare-Holds i sql params io others c c' run fair h =
      journaled-Holds i sql params io others c c' _ run fair refl h

  -- What a restart finds of an open intent.
  Holds-restart :
      (i : ℕ) (sql : Text) (params : List Text) (io : StatementIo) (j : Journal) (m : Memory)
      (rest : List ℕ)
      → replay api.codec file ≡ replayed m
      → IsLine 10 rest
      → Holds i sql params io j
      → (disk : Memory) × (replay api.codec (j.file ++ rest) ≡ replayed disk)
        × (lookup i disk.open_set ≡ some (intent_record i (request_of api sql params io)))
  Holds-restart i sql params io j m rest read torn h =
      let (disk, reads, covers) =
        restart-Covers api.codec api.threshold file m rest read h.run torn in
      (disk, reads, covers.held i (intent_record i (request_of api sql params io)) h.found)

  -- A statement that is not sent has an outcome that says so.
  abbrev Stops : Prepared api → Type 0
  Stops (stopped o) = IsRefusal api o
  Stops (ready i) = Unit

  prepare-Stops :
      (sql : Text) (params : List Text) (io : StatementIo) (others : Journal → Journal)
      (c : Connection)
      → Stops (prepare api sql params io others c).0
  unfolding prepare
  prepare-Stops sql params io others c =
      go (append_intent api.codec api.threshold (request_of api sql params io) io.append c.journal)
    where
      go : (a : Appended × Journal) → Stops (journaled api others io c a).0
      go (failed f, j) = tt
      go (appended i, j) = elim (Bool-cases (is_some (status api (others j)).1)) [
        | inl bad ↦ rw (bad, recheck) tt
        | inr good ↦ rw (good, recheck) tt
      ]

  conclude-unknown :
      (i : ℕ) (io : StatementIo) (s : Sent) (c c' : Connection)
      → conclude api i io s c ≡ (unknown_outcome, c')
      → c ≡ c'
  unfolding conclude
  conclude-unknown i io (answer rest) c c' h = cc h
  conclude-unknown i io definite_error c c' h = cc h
  conclude-unknown i io other_error c c' h = cc h

  perform-unknown :
      (i : ℕ) (sql : Text) (params : List Text) (io : StatementIo) (r : Reply)
      (others : Journal → Journal) (p : Prepared api) (c c' : Connection)
      → Stops p
      → ((k : ℕ) → p ≡ ready k → (k ≡ i) × Holds k sql params io c.journal)
      → ((j : Journal) → Rivals api.codec api.threshold i j (others j))
      → perform api sql params io r others (p, c) ≡ (unknown_outcome, c')
      → Holds i sql params io c'.journal
  perform-unknown i sql params io r others (stopped o) c c' refusal holds fair h =
      absurd (subst (IsRefusal api) (ap (λ (x : Outcome api × Connection). x.0) h) refusal)
  perform-unknown i sql params io r others (ready k) c c' refusal holds fair h =
      let (same, here) = holds k refl in
      let c'' = (send api sql params r c).1 in
      let at_i : Holds i sql params io c''.journal =
        subst (λ j. Holds i sql params io j) (sym (send-keeps api sql params r c).1)
          (subst (λ n. Holds n sql params io c.journal) same here) in
      subst (λ j. Holds i sql params io j)
        (ap (λ (d : Connection). d.journal)
          (conclude-unknown k io _ (record c'' { journal = others c''.journal }) c' h))
        (Holds-Rivals (fair c''.journal) at_i)

  -- The journal of a connection holds a run of operations on the file, and between its append and its
  -- send other threads do anything but resolve or abandon the identity that comes next.
  pub record IsServed (between during : Journal → Journal) (c : Connection) : Type 0 where
    pub run : Run c.journal
    pub fair_between :
        (j : Journal) → Rivals api.codec api.threshold c.journal.memory.next_id j (between j)
    pub fair_during :
        (j : Journal) → Rivals api.codec api.threshold c.journal.memory.next_id j (during j)

  admitted_write-unknown :
      (sql : Text) (params : List Text) (io : StatementIo) (r : Reply)
      (between during : Journal → Journal) (c c' : Connection) (e : Entered)
      → IsServed between during c
      → admitted_write api sql params io r between during c e ≡ (unknown_outcome, c')
      → Holds c.journal.memory.next_id sql params io c'.journal
  admitted_write-unknown sql params io r between during c c' (refused e) v h = cc h
  admitted_write-unknown sql params io r between during c c' (admitted t g) v h =
      let started : Connection = record c { gate = g } in
      let p = prepare api sql params io between started in
      let q = perform api sql params io r during p in
      subst (λ j. Holds c.journal.memory.next_id sql params io j)
        (ap (λ (x : Outcome api × Connection). x.1.journal) h)
        (perform-unknown c.journal.memory.next_id sql params io r during p.0 p.1 q.1
          (prepare-Stops sql params io between started)
          (λ k e.
            prepare-Holds k sql params io between started p.1 v.run v.fair_between
              (ap (λ x. (x, p.1)) e))
          v.fair_during (ap (λ (x : Outcome api × Connection). (x.0, q.1)) h))

module _ (api : Api) where
  -- A write ahead of the request: when a statement is ready to be sent, whatever other threads did to
  -- the journal meanwhile but resolve or abandon this intent, no request of it has been handed to a socket, and a restart of a process
  -- that dies from here on, with any torn bytes behind the file, finds its intent open, with its record.
  pub prepare-durable :
      (file : List ℕ) (m : Memory) (i : ℕ) (sql : Text) (params : List Text) (io : StatementIo)
      (others : Journal → Journal) (c c' : Connection) (rest : List ℕ)
      → replay api.codec file ≡ replayed m
      → Reach api.codec api.threshold (open_journal api.codec true file) c.journal
      → ((j : Journal) → Rivals api.codec api.threshold c.journal.memory.next_id j (others j))
      → prepare api sql params io others c ≡ (ready i, c')
      → IsLine 10 rest
      → (c'.transport ≡ c.transport)
        × (disk : Memory) × (replay api.codec (c'.journal.file ++ rest) ≡ replayed disk)
        × (lookup i disk.open_set ≡ some (intent_record i (request_of api sql params io)))
  prepare-durable file m i sql params io others c c' rest read run fair h torn =
      let (disk, reads, found) =
        Holds-restart api file i sql params io c'.journal m rest read torn
          (prepare-Holds api file i sql params io others c c' run fair h).1 in
      (
        sym (ap (λ (x : Prepared api × Connection). x.1.transport) h)
            ∙ (prepare-keeps api sql params io others c).0,
        disk,
        reads,
        found,
      )

  -- A statement that is not a read, and whose outcome is unknown, leaves its intent open: a restart,
  -- with any torn bytes behind the file, finds it under the identity that was next, with its record.
  pub execute_api-unknown :
      (file : List ℕ) (m : Memory) (sql : Text) (params : List Text) (io : StatementIo) (r : Reply)
      (between during : Journal → Journal) (c c' : Connection) (rest : List ℕ)
      → replay api.codec file ≡ replayed m
      → IsServed api file between during c
      → is_read (classify_statement api.tables sql).kind ≡ false
      → execute_api api sql params io r between during c ≡ (unknown_outcome, c')
      → IsLine 10 rest
      → (disk : Memory) × (replay api.codec (c'.journal.file ++ rest) ≡ replayed disk)
        × (lookup c.journal.memory.next_id disk.open_set
            ≡ some (intent_record c.journal.memory.next_id (request_of api sql params io)))
  unfolding execute_api
  execute_api-unknown file m sql params io r between during c c' rest read v writes h torn =
      elim (Bool-cases (is_some c.read_only_reason)) [
        | inl shut ↦ cc (simp (writes, shut) at h)
        | inr usable ↦
            Holds-restart api file c.journal.memory.next_id sql params io c'.journal m rest read
              torn
              (admitted_write-unknown api file sql params io r between during c c' _ v
                (simp (writes, usable) at h))
      ]
