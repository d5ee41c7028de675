-- ===== src/RemoteWrites/Tests.antt =====
-- Statements of memora/backends.py on a concrete connection, and the theorems applied to them.
use memora.Prelude.{
  ◌⊎◌, true, false, none, some, [], ◌∷◌, ◌++◌, ◌≡◌, refl, lookup, ℕ_comparable, Text_comparable,
  text_beq, subst, sym, ap,
}
use memora.Prelude.Text.{Text, codes}
use memora.WriteGate.{new_gate, store_read_only, state_locked, enter, leave}
use memora.WriteGate.Admission.{IsWellFormed}
use memora.IntentJournal.Record.{Memory, empty_memory}
use memora.IntentJournal.Ops.{
  Journal, written, repaired, intent_record, append_intent, finish_append, maybe_compact,
}
use memora.IntentJournal.Lines.{lines, keep_length}
use memora.IntentJournal.Replay.{replay, replayed}
use memora.IntentJournal.Opening.{open_journal}
use memora.IntentJournal.Safety.{here}
use memora.IntentJournal.Sample.{codec, all_well, empty_journal, replay_nothing}
use memora.SqlClassify.Sample.{ascii}
use memora.SqlClassify.Tokens.{lex, tokens_from, tokenize, take_while}
use memora.SqlClassify.Statements.{split_token, split_tokens, split_statements, note_body, drop}
use memora.SqlClassify.Classify.{
  classify_statement, classify_main, classify_one, classify_statements, classify_tokens,
  target_after, is_read,
}
use memora.RemoteWrites.Transport.{
  no_response, cut_off, Transport, post, is_read_statement, starts_with, receive,
}
use memora.RemoteWrites.Connection.{
  Api, json, Connection, Reply, StatementIo, Outcome, unknown_outcome, not_admitted, ready, prepare,
  send, recheck, conclude, execute_api, gate_now, request_of, status, read_reply,
}
use memora.RemoteWrites.Sends.{Resends, post-Resends, send-requests}
use memora.RemoteWrites.Refusals.{IsRefusal, execute_api-refused, execute_api-frozen}
use memora.RemoteWrites.Others.{quiet}
use memora.RemoteWrites.Unknown.{IsServed, prepare-durable, execute_api-unknown}
use memora.RemoteWrites.Balance.{Balanced, execute_api-Balanced}

abbrev api : Api
api = record {
  tables = ascii;
  codec = codec;
  threshold = 8388608;
  encode = λ sql params. sql;
  loads = λ raw. json (text_beq raw (codes "fine")) raw;
  digest = λ params. [];
  spell_target = λ t. [];
  spell_keys = λ k. [];
  message = λ f. "fault";
  spell = λ t. "statement";
}

abbrev deletion : Text
deletion = codes "delete from t"

abbrev statement_io : StatementIo
statement_io = record {
  sent_at = codes "1";
  append = all_well;
  resolved_at = codes "2";
  resolution = written;
  synced = true;
  repair = repaired;
}

-- The connection is cut while the response is read.
abbrev cut : Reply
cut = record { now = 5; first = cut_off; second = no_response; later = 6; header = none }

abbrev kept_open : Transport
kept_open = record { is_open = true; last_used = 1; requests = [] }

abbrev connected : Connection
connected = record {
  gate = new_gate none none;
  journal = empty_journal;
  transport = kept_open;
  token = none;
  request_count = 0;
  read_only_reason = none;
}

abbrev frozen_connection : Connection
frozen_connection = record connected { gate = record (new_gate none none) { frozen = true } }

abbrev nobody : Journal → Journal
nobody j = j

post-Resends_example :
    (Resends true 5 no_response kept_open
      × ((post deletion true 5 no_response cut_off 6 kept_open).1.requests
          ≡ deletion ∷ deletion ∷ []))
    ⊎ ((¬ Resends true 5 no_response kept_open)
        × ((post deletion true 5 no_response cut_off 6 kept_open).1.requests ≡ deletion ∷ []))
post-Resends_example = post-Resends deletion true 5 6 no_response cut_off kept_open

deletion_not_read : is_read_statement ascii deletion ≡ false
unfolding is_read_statement starts_with
deletion_not_read = refl

deletion_sent_once : (send api deletion [] cut connected).1.transport.requests ≡ deletion ∷ []
deletion_sent_once = send-requests api deletion [] cut connected deletion_not_read

deletion_writes : is_read (classify_statement ascii deletion).kind ≡ false
unfolding classify_statement lex tokens_from tokenize take_while split_token split_tokens
    split_statements note_body drop classify_main classify_one classify_statements classify_tokens
    target_after text_beq
deletion_writes = refl

frozen_statement_refused :
    execute_api api deletion [] statement_io cut nobody nobody frozen_connection ≡ (
      not_admitted (store_read_only (state_locked (gate_now api frozen_connection))),
      frozen_connection,
    )
unfolding new_gate
frozen_statement_refused =
    execute_api-frozen api deletion [] statement_io cut nobody nobody frozen_connection
      deletion_writes refl refl

frozen_refused :
    IsRefusal api (execute_api api deletion [] statement_io cut nobody nobody frozen_connection).0
frozen_refused =
    subst (λ (x : Outcome api × Connection). IsRefusal api x.0) (sym frozen_statement_refused) tt

execute_api-refused_example :
    (execute_api api deletion [] statement_io cut nobody nobody frozen_connection).1.transport
    ≡ kept_open
execute_api-refused_example =
    execute_api-refused api deletion [] statement_io cut nobody nobody frozen_connection
      (frozen_refused)

connected_IsWellFormed : IsWellFormed (new_gate none none)
unfolding new_gate
connected_IsWellFormed = record { flying = tt; gone = tt; distinct = tt; live = tt }

execute_api-Balanced_example :
    Balanced api
      (new_gate none none)
      (execute_api api deletion [] statement_io cut nobody nobody connected).1.gate
execute_api-Balanced_example =
    execute_api-Balanced api deletion [] statement_io cut nobody nobody connected
      connected_IsWellFormed

served : IsServed api [] nobody nobody connected
served = record { run = here; fair_between = λ j. quiet; fair_during = λ j. quiet }

-- The connection after the intent is journaled.
abbrev prepared : Connection
prepared = (prepare api deletion [] statement_io nobody connected).1

prepare_ready : prepare api deletion [] statement_io nobody connected ≡ (ready 1, prepared)
unfolding prepare append_intent finish_append maybe_compact open_journal replay lines keep_length
    empty_memory recheck status
prepare_ready = refl

prepare-durable_example :
    (prepared.transport ≡ kept_open)
    × (disk : Memory) × (replay codec (prepared.journal.file ++ 65 ∷ []) ≡ replayed disk)
    × (lookup 1 disk.open_set ≡ some (intent_record 1 (request_of api deletion [] statement_io)))
prepare-durable_example =
    prepare-durable api [] empty_memory 1 deletion [] statement_io nobody connected prepared
      (65 ∷ []) replay_nothing here (λ j. quiet) prepare_ready refl

abbrev after : Connection
after = (execute_api api deletion [] statement_io cut nobody nobody connected).1

execute_unknown :
    execute_api api deletion [] statement_io cut nobody nobody connected ≡ (unknown_outcome, after)
unfolding execute_api prepare append_intent finish_append maybe_compact open_journal replay lines
    keep_length empty_memory recheck status enter new_gate send post receive conclude read_reply
    leave classify_statement lex tokens_from tokenize take_while split_token split_tokens
    split_statements note_body drop classify_main classify_one classify_statements classify_tokens
    target_after text_beq state_locked is_read_statement
execute_unknown = ap (λ o. (o, after)) refl

execute_api-unknown_example :
    (disk : Memory) × (replay codec (after.journal.file ++ 65 ∷ []) ≡ replayed disk)
    × (lookup connected.journal.memory.next_id disk.open_set
        ≡ some (
            intent_record connected.journal.memory.next_id
              (request_of api deletion [] statement_io)))
execute_api-unknown_example =
    execute_api-unknown api [] empty_memory deletion [] statement_io cut nobody nobody connected
      after (65 ∷ []) replay_nothing served deletion_writes execute_unknown refl
