-- ===== src/IntentJournal/Safety/Appends.antt =====
-- The file and the memory under the appends of memora/intent_journal.py.
use memora.Prelude.{
  ℕ_comparable, ℕ, ◌+◌, ◌≤◌, ◌≡◌, false, not, ◌&&◌, none, some, [], ◌∷◌, ◌++◌, insert, Bool-cases,
  inl, inr, arith, ltb, length,
}
use memora.Prelude.Text.{Text, codes}
use memora.IntentJournal.Record.{Codec, Fields, intent, resolved, apply, object, validate_record}
use memora.IntentJournal.Ops.{
  Journal, Request, AppendIo, WriteIo, written, short, is_some, usable, intent_record,
  resolved_record, maybe_compact, finish_append, after_record, record_intent, append_intent,
}
use memora.IntentJournal.Replay.{read_line}
use memora.IntentJournal.Covers.{read_line-dumps, IsLog-line, IsLog-torn}
use memora.IntentJournal.Memories.{Covers-intent, Covers-left_over, IsConsistent-intent}
use memora.IntentJournal.Safety.Keeps.{
  short-repair-IsSound, repair-IsSound, line-IsSound, compact-IsSound, abandon-IsSound, IsSound,
}

module _ (codec : Codec) where
  validate-intent :
      (i : ℕ) (r : Request)
      → 1 ≤ i
      → validate_record (object (intent_record i r)) ≡ some (intent i (intent_record i r))
  unfolding validate_record
  validate-intent i r h = ground arith

  maybe_compact-IsSound :
      (threshold : ℕ) (io : AppendIo) (j : Journal)
      → IsSound codec j
      → IsSound codec (maybe_compact codec threshold io j)
  unfolding maybe_compact
  maybe_compact-IsSound threshold io j s =
      elim (Bool-cases (io.fstat_ok && ltb threshold (length j.file))) [
        | inl big ↦ rw big (compact-IsSound codec io.compact j s)
        | inr small ↦ rw small s
      ]

  validate-not_sent :
      (i : ℕ) (at_time : Text)
      → 1 ≤ i
      → validate_record (object (resolved_record i (codes "not-sent") at_time)) ≡ some (resolved i)
  unfolding validate_record
  validate-not_sent i at_time h = ground arith

  finish_append-IsSound :
      (at_time : Text) (i : ℕ) (io : AppendIo) (j : Journal)
      → 1 ≤ i
      → IsSound codec j
      → IsSound codec (finish_append codec at_time i io j).1
  unfolding finish_append
  finish_append-IsSound at_time i io j h s = elim (Bool-cases (is_some j.broken)) [
    | inl bad ↦ rw bad (
        abandon-IsSound codec i (codes "not-sent") at_time io.late io.late_repair j
          (validate-not_sent i at_time h) s)
    | inr good ↦ rw good s
  ]

  -- The intent on the file and in memory.
  added-IsSound :
      (rec : Fields) (j : Journal)
      → IsSound codec j
      → j.broken ≡ none
      → read_line codec (codec.dumps rec) ≡ some (intent j.memory.next_id rec)
      → IsSound codec (record j {
        file = j.file ++ codec.dumps rec ++ 10 ∷ [];
        memory = record {
          open_set = insert j.memory.next_id rec j.memory.open_set;
          next_id = j.memory.next_id + 1;
        };
        dirty = false;
      })
  added-IsSound rec j s b h =
      let e = intent j.memory.next_id rec in
      let l = IsLog-line codec j.file s.disk rec e (s.clean b) h in
      record {
        disk = apply e s.disk;
        torn = IsLog-torn codec _ (apply e s.disk) l;
        clean = λ _. l;
        covers = Covers-intent j.memory s.disk rec s.covers;
        consistent = IsConsistent-intent codec j.memory rec h s.consistent;
      }

  record_intent-IsSound :
      (threshold : ℕ) (at_time : Text) (rec : Fields) (io : AppendIo) (w : WriteIo) (j : Journal)
      → read_line codec (codec.dumps rec) ≡ some (intent j.memory.next_id rec)
      → j.broken ≡ none
      → IsSound codec j
      → IsSound codec (record_intent codec threshold at_time j.memory.next_id rec io w j).1
  unfolding record_intent after_record
  record_intent-IsSound threshold at_time rec io (short k) j h b s =
      short-repair-IsSound codec k io.repair rec j s b
  record_intent-IsSound threshold at_time rec io written j h b s = elim (Bool-cases io.synced) [
    | inl ok ↦ simp ok (
        finish_append-IsSound at_time j.memory.next_id io _ s.consistent.started
          (maybe_compact-IsSound threshold io _ (added-IsSound rec j s b h)))
    | inr bad ↦ simp bad (
        repair-IsSound codec io.repair _ (
          line-IsSound codec rec (intent j.memory.next_id rec) j s b h
            (Covers-left_over codec j.memory s.disk rec s.consistent s.covers)))
  ]

  pub append_intent-IsSound :
      (threshold : ℕ) (r : Request) (io : AppendIo) (j : Journal)
      → IsSound codec j
      → IsSound codec (append_intent codec threshold r io j).1
  unfolding append_intent
  append_intent-IsSound threshold r io j s = elim (Bool-cases (not (usable j))) [
    | inl bad ↦ rw bad s
    | inr good ↦ elim (Bool-cases (not j.fd)) [
      | inl shut ↦ rw (good, shut) s
      | inr opened ↦ elim (Bool-cases (not io.inode_ok)) [
        | inl moved ↦
            rw (good, opened, moved)
              (record {
                disk = s.disk;
                torn = s.torn;
                clean = λ e. cc;
                covers = s.covers;
                consistent = s.consistent;
              })
        | inr same ↦
            rw (good, opened, same)
              (record_intent-IsSound threshold r.sent_at (intent_record j.memory.next_id r) io
                io.write j
                (read_line-dumps codec _ _
                  (validate-intent j.memory.next_id r s.consistent.started))
                (ground arith) s)
      ]
    ]
  ]
