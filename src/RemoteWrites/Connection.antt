-- ===== src/RemoteWrites/Connection.antt =====
-- `D1Connection._send` and `_execute_api` of memora/backends.py.
use memora.Prelude.{
  ℕ, ◌+◌, String, Bool, true, false, Option, none, some, List, [], ◌∷◌, if◌then◌else◌, leb, ltb,
}
use memora.Prelude.Text.{Text, codes}
use memora.WriteGate.{WriteGate, GateToken, EnterError, Entered, admitted, refused, enter, leave}
use memora.IntentJournal.Record.{Codec, Fields}
use memora.IntentJournal.Ops.{
  Journal, Request, AppendIo, AppendError, Appended, appended, failed, WriteIo, RepairIo, Fault,
  append_intent, abandon, resolve, is_some,
}
use memora.SqlClassify.Tokens.{CharTables}
use memora.SqlClassify.Classify.{
  StatementKind, read, mutation, ddl, txn, unknown, classify_statement, is_read,
}
use memora.SqlClassify.Effect.{derive_effect}
use memora.RemoteWrites.Transport.{
  Attempt, Transport, Posted, replied, raised, post, is_read_statement,
}

-- A response body as `_send` reads it: no JSON; JSON that is no object, or whose first error is none, so
-- that looking into it raises; or an object whose `success` is true or not, with the rest as text.
pub data Body : Type 0 where
  not_json malformed : Body
  json : Bool → Text → Body

pub data Sent : Type 0 where
  answer : Text → Sent
  definite_error : Sent
  other_error : Sent

-- What the connection takes from outside: the character tables, the JSON of requests and responses,
-- the spelling of the journal's members, and the message of a fault.
pub record Api : Type 0 where
  pub tables : CharTables
  pub codec : Codec
  pub threshold : ℕ
  pub encode : Text → List Text → Text
  pub loads : Text → Body
  pub digest : List Text → Text
  pub spell_target : Option Text → Text
  pub spell_keys : Option (List (Text × Text)) → Text
  pub message : Fault → String
  pub spell : Text → String

-- `D1Connection` with the gate and the journal of its store. `token` is `_session_token`.
pub record Connection : Type 0 where
  pub gate : WriteGate
  pub journal : Journal
  pub transport : Transport
  pub token : Option Text
  pub request_count : ℕ
  pub read_only_reason : Option String

-- How the network and the clock answer one `_send`; `header` is the new session token.
pub record Reply : Type 0 where
  pub now : ℕ
  pub first : Attempt
  pub second : Attempt
  pub later : ℕ
  pub header : Option Text

-- How the file system answers one mutating statement, with the clock as JSON text.
pub record StatementIo : Type 0 where
  pub sent_at : Text
  pub append : AppendIo
  pub resolved_at : Text
  pub resolution : WriteIo
  pub synced : Bool
  pub repair : RepairIo

abbrev absorb : Option Text → Option Text → Option Text
absorb none old = old
absorb (some []) old = old
absorb (some (c ∷ t)) old = some (c ∷ t)

abbrev pub of_body : Body → Sent
of_body not_json = other_error
of_body malformed = other_error
of_body (json true rest) = answer rest
of_body (json false rest) = definite_error

abbrev token_after : Body → Option Text → Option Text → Option Text
token_after not_json header old = old
token_after malformed header old = absorb header old
token_after (json success rest) header old = absorb header old

module _ (api : Api) where
  open api use {
    tables, codec, threshold, encode, loads, digest, spell_target, spell_keys, message, spell,
  }

  -- What the posted request means: a status of 400 or more is an error, definite below 500.
  unfoldable pub read_reply : Option Text → Posted → Connection → Sent × Connection
  read_reply header raised c = (other_error, c)
  read_reply header (replied status raw) c =
      if leb 400 status
      then (if ltb status 500 then definite_error else other_error, c)
      else (of_body (loads raw), record c { token = token_after (loads raw) header c.token })

  -- `_send`, with no proxy configured.
  unfoldable pub send : Text → List Text → Reply → Connection → Sent × Connection
  unfolding read_reply
  send sql params r c =
      let (posted, t) =
        post (encode sql params) (is_read_statement tables sql) r.now r.first r.second r.later
          c.transport in
      read_reply r.header posted (record c { transport = t; request_count = c.request_count + 1 })

  -- `status`
  abbrev fault_of : Option Fault → Option Fault → Option String
  fault_of (some f) broken = some (message f)
  fault_of none (some f) = some (message f)
  fault_of none none = none

  abbrev ids : List (ℕ × Fields) → List ℕ
  ids [] = []
  ids ((i, rec) ∷ rest) = i ∷ ids rest

  unfoldable pub status : Journal → List ℕ × Option String
  status j = (ids j.memory.open_set, fault_of j.fatal j.broken)

  -- The gate asks the journal when it is asked.
  abbrev pub gate_now : Connection → WriteGate
  gate_now c = record (c.gate) { journal_status = some (status c.journal) }

  pub data Outcome : Type 0 where
    answered : Text → Outcome
    read_only_connection : Outcome
    not_admitted : EnterError → Outcome
    not_journaled : AppendError → Outcome
    not_sent : Outcome
    refused_by_store : Outcome
    unknown_outcome : Outcome

  abbrev pub of_sent : Sent → Outcome
  of_sent (answer rest) = answered rest
  of_sent definite_error = refused_by_store
  of_sent other_error = unknown_outcome

  -- `target or c.target`, as JSON text, and the other members of the intent.
  abbrev first_target : Option Text → Option Text → Option Text
  first_target none other = other
  first_target (some []) other = other
  first_target (some (c ∷ t)) other = some (c ∷ t)

  abbrev pub request_of : Text → List Text → StatementIo → Request
  request_of sql params io =
      let effect = derive_effect tables sql params in
      record {
        sql = sql;
        params_sha256 = digest params;
        target = spell_target (first_target effect.target (classify_statement tables sql).target);
        keys = spell_keys effect.keys;
        post_state = spell_keys effect.post;
        sent_at = io.sent_at;
      }

  pub data Prepared : Type 0 where
    ready : ℕ → Prepared
    stopped : Outcome → Prepared

  -- The journal is asked again before the send.
  unfoldable pub recheck : ℕ → StatementIo → Connection → Prepared × Connection
  recheck i io c =
      if is_some (status c.journal).1
      then (
        stopped not_sent,
        record c {
          journal =
              abandon codec i (codes "not-sent") io.resolved_at io.resolution io.repair c.journal;
        },
      )
      else (ready i, c)

  abbrev pub journaled :
      (Journal → Journal) → StatementIo → Connection → Appended × Journal → Prepared × Connection
  journaled others io c (failed e, j) = (stopped (not_journaled e), record c { journal = j })
  journaled others io c (appended i, j) = recheck i io (record c { journal = others j })

  -- From the derived effect to the last check; `others` is what other threads do to the journal
  -- between the append and the check.
  unfoldable pub prepare :
      Text → List Text → StatementIo → (Journal → Journal) → Connection → Prepared × Connection
  unfolding recheck
  prepare sql params io others c =
      journaled others io c
        (append_intent codec threshold (request_of sql params io) io.append c.journal)

  pub resolve_as : Text → ℕ → StatementIo → Connection → Connection
  resolve_as outcome i io c = record c {
    journal =
        (resolve codec i outcome io.resolved_at false [] io.resolution io.synced io.repair
          c.journal).1;
  }

  -- What a known outcome writes into the journal.
  unfoldable pub conclude : ℕ → StatementIo → Sent → Connection → Outcome × Connection
  unfolding resolve_as
  conclude i io (answer rest) c = (answered rest, resolve_as (codes "ok") i io c)
  conclude i io definite_error c = (refused_by_store, resolve_as (codes "failed") i io c)
  conclude i io other_error c = (unknown_outcome, c)

  -- The send of a prepared statement; `others` is what other threads do to the journal meanwhile.
  abbrev pub perform :
      Text
      → List Text
      → StatementIo
      → Reply
      → (Journal → Journal)
      → Prepared × Connection
      → Outcome × Connection
  perform sql params io r others (stopped o, c) = (o, c)
  perform sql params io r others (ready i, c) =
      let (sent, c') = send sql params r c in
      conclude i io sent (record c' { journal = others c'.journal })

  -- `finally: gate.leave(token)`
  abbrev pub left : GateToken → Outcome × Connection → Outcome × Connection
  left t (o, c) = (o, record c { gate = leave t.id c.gate })

  abbrev pub admitted_write :
      Text
      → List Text
      → StatementIo
      → Reply
      → (Journal → Journal)
      → (Journal → Journal)
      → Connection
      → Entered
      → Outcome × Connection
  admitted_write sql params io r between during c (refused e) = (not_admitted e, c)
  admitted_write sql params io r between during c (admitted t g) =
      left t
        (perform sql params io r during (prepare sql params io between (record c { gate = g })))

  -- `c.main or c.kind`
  abbrev pub kind_name : StatementKind → Text
  kind_name read = codes "read"
  kind_name mutation = codes "mutation"
  kind_name ddl = codes "ddl"
  kind_name txn = codes "txn"
  kind_name unknown = codes "unknown"

  abbrev pub desc_of : Text → Text → String
  desc_of [] kind = spell kind
  desc_of (c ∷ t) kind = spell (c ∷ t)

  -- `_execute_api`
  unfoldable pub execute_api :
      Text
      → List Text
      → StatementIo
      → Reply
      → (Journal → Journal)
      → (Journal → Journal)
      → Connection
      → Outcome × Connection
  execute_api sql params io r between during c =
      let k = classify_statement tables sql in
      if is_read k.kind
      then (let (sent, c') = send sql params r c in (of_sent sent, c'))
      else if is_some c.read_only_reason
      then (read_only_connection, c)
      else admitted_write sql params io r between during c
          (enter (desc_of k.main (kind_name k.kind)) false "memora.backends" (gate_now c))
