-- ===== src/IntentJournal/Tests.antt =====
-- Runs of the journal of memora/intent_journal.py, and its theorems at inputs that meet their hypotheses.
use memora.Prelude.{◌≡◌, refl, true, false, none, some, [], ◌∷◌, ◌++◌, lookup, insert, ℕ_comparable}
use memora.Prelude.Text.{codes}
use memora.IntentJournal.Record.{Memory, empty_memory, validate_record}
use memora.IntentJournal.Lines.{lines, keep_length}
use memora.IntentJournal.Ops.{
  Journal, AppendIo, written, short, repaired, compacted, append_intent, resolve, intent_record,
  compact, finish_append, maybe_compact,
}
use memora.IntentJournal.Replay.{replayed, replay}
use memora.IntentJournal.Sample.{codec, insert_one, all_well, empty_journal, replay_nothing}
use memora.IntentJournal.Covers.{Covers}
use memora.IntentJournal.Opening.{open_journal}
use memora.IntentJournal.Safety.{Reach, here, next, append, restart-Covers, append_intent_durable}
use memora.IntentJournal.Unsynced.{compact_restart, resolve_unsynced}

-- A write that fails after three bytes, and is repaired.
abbrev torn_write : AppendIo
torn_write = record all_well { write = short 3 }

abbrev torn_journal : Journal
torn_journal = (append_intent codec 8388608 insert_one torn_write empty_journal).1

abbrev one_open : Journal
one_open = (append_intent codec 8388608 insert_one all_well torn_journal).1

one_open_reached : Reach codec 8388608 empty_journal one_open
one_open_reached =
    next (next here (append empty_journal insert_one torn_write))
      (append torn_journal insert_one all_well)

restart-Covers_example :
    (disk : Memory) × (replay codec (one_open.file ++ 65 ∷ 66 ∷ []) ≡ replayed disk)
    × Covers one_open.memory disk
restart-Covers_example =
    restart-Covers codec 8388608 [] empty_memory (65 ∷ 66 ∷ []) replay_nothing one_open_reached refl

append_intent_durable_example :
    (disk : Memory) × (replay codec (one_open.file ++ 65 ∷ []) ≡ replayed disk)
    × (lookup 1 disk.open_set ≡ some (intent_record 1 insert_one))
unfolding append_intent finish_append maybe_compact open_journal replay lines keep_length
    empty_memory
append_intent_durable_example =
    append_intent_durable codec 8388608 [] empty_memory {j = torn_journal} insert_one all_well
      one_open 1 (65 ∷ []) replay_nothing (next here (append empty_journal insert_one torn_write))
      refl refl

compact_restart_example :
    ((compact codec compacted one_open).memory ≡ one_open.memory)
    × (replay codec ((compact codec compacted one_open).file ++ 65 ∷ []) ≡ replayed one_open.memory)
unfolding append_intent finish_append maybe_compact open_journal replay lines keep_length
    empty_memory
compact_restart_example =
    compact_restart codec 8388608 [] empty_memory one_open replay_nothing one_open_reached refl refl
      (65 ∷ []) refl

resolve_unsynced_example :
    ((resolve codec 1 (codes "ok") (codes "2") true [] written false repaired one_open).0 ≡ false)
    × (lookup 1
          (resolve codec 1
            (codes "ok")
            (codes "2")
            true
            []
            written
            false
            repaired
            one_open).1.memory.open_set
        ≡ some (intent_record 1 insert_one))
    × (disk : Memory) × (replay codec
          (resolve codec 1 (codes "ok") (codes "2") true [] written false repaired one_open).1.file
        ≡ replayed disk)
    × (lookup 1 disk.open_set ≡ none)
unfolding append_intent finish_append maybe_compact open_journal replay lines keep_length
    empty_memory validate_record lookup insert
resolve_unsynced_example =
    resolve_unsynced codec 8388608 [] empty_memory one_open replay_nothing one_open_reached refl
      refl 1 (intent_record 1 insert_one) (codes "ok") (codes "2") refl refl
