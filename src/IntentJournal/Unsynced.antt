-- ===== src/IntentJournal/Unsynced.antt =====
-- Compaction and failed durable resolutions in memora/intent_journal.py, as a restart sees them.
use memora.Prelude.{
  ℕ, ◌≡◌, refl, sym, ap, ◌∙◌, true, false, none, some, List, [], ◌++◌, lookup, lookup-remove,
  nat_eq_refl, ℕ_comparable, arith,
}
use memora.Prelude.Text.{Text}
use mathlib.Core.List.{append-nil}
use memora.IntentJournal.Record.{Codec, Fields, Memory, resolved, apply, object, validate_record}
use memora.IntentJournal.Lines.{IsLine}
use memora.IntentJournal.Ops.{
  Journal, compacted, written, repaired, usable, compact, replace_file, resolve, resolve_line,
  repair, write_line, resolved_record, compacted_file,
}
use memora.IntentJournal.Replay.{replayed, replay}
use memora.IntentJournal.Covers.{
  IsLog-line, IsLog-torn, truncate-IsLog, replay-torn, read_line-dumps,
}
use memora.IntentJournal.Compaction.{compacted_file-IsLog}
use memora.IntentJournal.Opening.{open_journal, open_journal-IsSound}
use memora.IntentJournal.Safety.Keeps.{not_broken}
use memora.IntentJournal.Safety.{Reach, Reach-IsSound}

compact_live :
    (codec : Codec) (j : Journal)
    → j.fd ≡ true
    → usable j ≡ true
    → compact codec compacted j ≡ replace_file codec compacted j
unfolding compact
compact_live codec j live fit = rw (compact, live, fit)

resolve_live :
    (codec : Codec) (j : Journal) (i : ℕ) (rec : Fields) (outcome at_time : Text)
    → j.fd ≡ true
    → usable j ≡ true
    → lookup i j.memory.open_set ≡ some rec
    → resolve codec i outcome at_time true [] written false repaired j
      ≡ (false, repair repaired (write_line codec written (resolved_record i outcome at_time) j))
unfolding resolve resolve_line
resolve_live codec j i rec outcome at_time live fit h = rw (resolve, h) (ground arith)

module _ (codec : Codec) (threshold : ℕ) (file : List ℕ) (m : Memory) (j : Journal)
    (opened : replay codec file ≡ replayed m)
    (reach : Reach codec threshold (open_journal codec true file) j) (live : j.fd ≡ true)
    (fit : usable j ≡ true) where
  -- A compaction that succeeds changes no memory, and a restart behind it finds the open intents and
  -- the next identity exactly as they were, in spite of torn bytes.
  pub compact_restart :
      (rest : List ℕ)
      → IsLine 10 rest
      → ((compact codec compacted j).memory ≡ j.memory)
        × (replay codec ((compact codec compacted j).file ++ rest) ≡ replayed j.memory)
  unfolding replace_file
  compact_restart rest t =
      let s = Reach-IsSound codec threshold (open_journal-IsSound codec file m opened) reach in
      let l = compacted_file-IsLog codec j.memory s.consistent in
      rw (compact_live codec j live fit) (
        refl,
        replay-torn codec (compacted_file codec j.memory) j.memory rest
            (IsLog-torn codec _ j.memory l) t,
      )

  -- A durable resolution whose line is written and whose fsync fails answers `False` and leaves the
  -- intent open in memory; but the repair keeps the whole line, and a restart finds it resolved.
  pub resolve_unsynced :
      (i : ℕ) (rec : Fields) (outcome at_time : Text)
      → lookup i j.memory.open_set ≡ some rec
      → validate_record (object (resolved_record i outcome at_time)) ≡ some (resolved i)
      → ((resolve codec i outcome at_time true [] written false repaired j).0 ≡ false)
        × (lookup i
              (resolve codec i outcome at_time true [] written false repaired j).1.memory.open_set
            ≡ some rec)
        × (disk : Memory) × (replay codec
              (resolve codec i outcome at_time true [] written false repaired j).1.file
            ≡ replayed disk)
        × (lookup i disk.open_set ≡ none)
  unfolding repair write_line apply
  resolve_unsynced i rec outcome at_time h v =
      let s = Reach-IsSound codec threshold (open_journal-IsSound codec file m opened) reach in
      let entry = resolved_record i outcome at_time in
      let l =
        IsLog-line codec j.file s.disk entry (resolved i) (s.clean (not_broken j fit))
          (read_line-dumps codec entry (resolved i) v) in
      let cut = truncate-IsLog codec _ (apply (resolved i) s.disk) (IsLog-torn codec _ _ l) in
      rw (resolve_live codec j i rec outcome at_time live fit h) (
        refl,
        h,
        apply (resolved i) s.disk,
        ap (λ f. replay codec f) (sym (append-nil _))
            ∙ replay-torn codec _ (apply (resolved i) s.disk) [] (IsLog-torn codec _ _ cut) refl,
        rw (lookup-remove, nat_eq_refl i),
      )
