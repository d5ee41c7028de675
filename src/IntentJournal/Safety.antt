-- ===== src/IntentJournal/Safety.antt =====
-- What a restart finds of a journal, after any run of its operations with any failures of the system
-- calls they make.
pub mod Keeps
pub mod Appends
use memora.Prelude.{
  ℕ, ◌≡◌, refl, Bool, true, false, Option, none, some, List, [], ◌++◌, ◌≢◌, ◌∙◌, ap, subst, lookup,
  insert, ◌∷◌, ◌+◌, Bool-cases, inl, inr, ltb, length, ◌&&◌, lookup-insert_self, ℕ_comparable,
  arith,
}
use memora.Prelude.Text.{Text}
use memora.IntentJournal.Record.{Codec, Fields, Memory, resolved, object, validate_record}
use memora.IntentJournal.Lines.{IsLine}
use memora.IntentJournal.Ops.{
  Journal, Request, AppendIo, CompactIo, tmp_failed, replace_failed, dir_failed, reopen_failed,
  compacted, is_some, WriteIo, written, short, write_line, RepairIo, Appended, appended,
  append_intent, resolve, abandon, compact, repair, resolved_record, update, intent_record,
  record_intent, after_record, finish_append, maybe_compact, replace_file,
}
use memora.IntentJournal.Replay.{replayed, replay}
use memora.IntentJournal.Covers.{Covers, replay-torn}
use memora.IntentJournal.Opening.{open_journal, open_journal-IsSound}
use memora.IntentJournal.Safety.Keeps.{
  resolve-IsSound, abandon-IsSound, compact-IsSound, repair-IsSound, dirty-IsSound, IsSound,
}
use memora.IntentJournal.Safety.Appends.{append_intent-IsSound}

module _ (codec : Codec) (threshold : ℕ) where
  -- One operation under the journal's mutex. A durable resolution whose fsync fails is not among them:
  -- its line may stay in the file.
  pub data Step : Journal → Journal → Type 0 where
    append :
        (j : Journal) (r : Request) (io : AppendIo)
        → Step j (append_intent codec threshold r io j).1
    resolving :
        (j : Journal) (i : ℕ) (outcome at_time : Text) (durable : Bool) (extra : Fields)
        (io : WriteIo) (synced : Bool) (r : RepairIo)
        → (durable ≡ true → synced ≡ true)
        → validate_record (object (update (resolved_record i outcome at_time) extra))
          ≡ some (resolved i)
        → Step j (resolve codec i outcome at_time durable extra io synced r j).1
    abandoning :
        (j : Journal) (i : ℕ) (outcome at_time : Text) (io : WriteIo) (r : RepairIo)
        → validate_record (object (resolved_record i outcome at_time)) ≡ some (resolved i)
        → Step j (abandon codec i outcome at_time io r j)
    compacting : (j : Journal) (io : CompactIo) → Step j (compact codec io j)
    lazy_sync : (j : Journal) → Step j (record j { dirty = false })
    sync_failed : (j : Journal) (r : RepairIo) → Step j (repair r j)

  pub data Reach (s : Journal) : Journal → Type 0 where
    here : Reach s s
    next : {j k : Journal} → Reach s j → Step j k → Reach s k

compact-memory :
    (codec : Codec) (io : CompactIo) (j : Journal)
    → j.dirty ≡ false
    → ((compact codec io j).memory ≡ j.memory) × ((compact codec io j).dirty ≡ false)
unfolding compact
compact-memory codec tmp_failed j d = (ground arith, ground arith)
compact-memory codec replace_failed j d = (ground arith, ground arith)
compact-memory codec dir_failed j d = (ground arith, ground arith)
compact-memory codec reopen_failed j d = (ground arith, ground arith)
compact-memory codec compacted j d = (ground arith, ground arith)

module _ (codec : Codec) (threshold : ℕ) where
  Step-IsSound : {j k : Journal} → Step codec threshold j k → IsSound codec j → IsSound codec k
  Step-IsSound (append j r io) s = append_intent-IsSound codec threshold r io j s
  Step-IsSound (resolving j i outcome at_time durable extra io synced r d v) s =
      resolve-IsSound codec i outcome at_time durable extra io synced r j d v s
  Step-IsSound (abandoning j i outcome at_time io r v) s =
      abandon-IsSound codec i outcome at_time io r j v s
  Step-IsSound (compacting j io) s = compact-IsSound codec io j s
  Step-IsSound (lazy_sync j) s = dirty-IsSound codec false j s
  Step-IsSound (sync_failed j r) s = repair-IsSound codec r j s

  pub Reach-IsSound :
      {s j : Journal} → IsSound codec s → Reach codec threshold s j → IsSound codec j
  Reach-IsSound s here = s
  Reach-IsSound s (next r st) = Step-IsSound st (Reach-IsSound s r)

-- A journal is opened on a file that replays, runs any operations with any failures, and dies, even
-- within a write: a restart replays the file, and every intent that was open in memory is open again
-- with its record.
pub restart-Covers :
    (codec : Codec) (threshold : ℕ) (file : List ℕ) (m : Memory) {j : Journal} (rest : List ℕ)
    → replay codec file ≡ replayed m
    → Reach codec threshold (open_journal codec true file) j
    → IsLine 10 rest
    → (disk : Memory) × (replay codec (j.file ++ rest) ≡ replayed disk) × Covers j.memory disk
restart-Covers codec threshold file m {j} rest h r t =
    let s = Reach-IsSound codec threshold (open_journal-IsSound codec file m h) r in
    (s.disk, replay-torn codec j.file s.disk rest s.torn t, s.covers)

-- What an `append_intent` that returns has done.
pub record Recorded (rec : Fields) (i : ℕ) (j k : Journal) : Type 0 where
  pub opened : k.memory.open_set ≡ insert i rec j.memory.open_set
  pub clean : k.dirty ≡ false
  pub counted : k.memory.next_id ≡ j.memory.next_id + 1

compact_keeps :
    (codec : Codec) (threshold : ℕ) (io : AppendIo) (j : Journal)
    → j.dirty ≡ false
    → ((maybe_compact codec threshold io j).memory ≡ j.memory)
      × ((maybe_compact codec threshold io j).dirty ≡ false)
unfolding maybe_compact
compact_keeps codec threshold io j d =
    elim (Bool-cases (io.fstat_ok && ltb threshold (length j.file))) [
      | inr small ↦ rw small (refl, d)
      | inl big ↦ rw big (go io.compact)
    ]
  where
    go :
        (c : CompactIo)
        → ((compact codec c j).memory ≡ j.memory) × ((compact codec c j).dirty ≡ false)
    go c = compact-memory codec c j d

finish_append_returns :
    (codec : Codec) (at_time : Text) (i i' : ℕ) (io : AppendIo) (j k : Journal)
    → finish_append codec at_time i io j ≡ (appended i', k)
    → (i' ≡ i) × (k ≡ j)
unfolding finish_append
finish_append_returns codec at_time i i' io j k e = elim (Bool-cases (is_some j.broken)) [
  | inl bad ↦ cc (rw (bad, finish_append) at e)
  | inr good ↦ (ground arith, ground arith)
]

-- The journal once the intent is on the file and in memory.
abbrev added : Codec → Fields → Journal → Journal
added codec rec j = record j {
  file = j.file ++ codec.dumps rec ++ 10 ∷ [];
  memory = record {
    open_set = insert j.memory.next_id rec j.memory.open_set;
    next_id = j.memory.next_id + 1;
  };
  dirty = false;
}

record_intent_returns :
    (codec : Codec) (threshold : ℕ) (at_time : Text) (rec : Fields) (io : AppendIo) (w : WriteIo)
    (j k : Journal) (i : ℕ)
    → record_intent codec threshold at_time j.memory.next_id rec io w j ≡ (appended i, k)
    → (i ≡ j.memory.next_id) × Recorded rec i j k
unfolding record_intent after_record write_line
record_intent_returns codec threshold at_time rec io (short n) j k i e = cc
record_intent_returns codec threshold at_time rec io written j k i e = elim (Bool-cases io.synced) [
  | inr bad ↦ cc (simp bad at e)
  | inl ok ↦
      let j' : Journal = added codec rec j in
      let (same, shape) =
        finish_append_returns codec at_time j.memory.next_id i io
          (maybe_compact codec threshold io j') k (simp ok at e) in
      let (memory, dirty) = compact_keeps codec threshold io j' refl in
      (
        same,
        record {
          opened = rw same (
              ap (λ (x : Journal). x.memory.open_set) shape
              ∙ ap (λ (x : Memory). x.open_set) memory);
          clean = ap (λ (x : Journal). x.dirty) shape ∙ dirty;
          counted =
              ap (λ (x : Journal). x.memory.next_id) shape ∙ ap (λ (x : Memory). x.next_id) memory;
        },
      )
]

pub append_intent_returns :
    (codec : Codec) (threshold : ℕ) (r : Request) (io : AppendIo) (j k : Journal) (i : ℕ)
    → append_intent codec threshold r io j ≡ (appended i, k)
    → (i ≡ j.memory.next_id) × Recorded (intent_record j.memory.next_id r) i j k
unfolding append_intent
append_intent_returns codec threshold r io j k i e =
    record_intent_returns codec threshold r.sent_at (intent_record j.memory.next_id r) io io.write j
      k i (ground arith)

-- A write that may be sent is on record: when `append_intent` returns an identity, then after any run
-- of the journal and whatever torn bytes follow, a restart finds that intent open with its record.
pub append_intent_durable :
    (codec : Codec) (threshold : ℕ) (file : List ℕ) (m : Memory) {j : Journal} (r : Request)
    (io : AppendIo) (k : Journal) (i : ℕ) (rest : List ℕ)
    → replay codec file ≡ replayed m
    → Reach codec threshold (open_journal codec true file) j
    → append_intent codec threshold r io j ≡ (appended i, k)
    → IsLine 10 rest
    → (disk : Memory) × (replay codec (k.file ++ rest) ≡ replayed disk)
      × (lookup i disk.open_set ≡ some (intent_record i r))
append_intent_durable codec threshold file m {j} r io k i rest h reach e t =
    let after : Reach codec threshold (open_journal codec true file) k =
      subst (λ x. Reach codec threshold (open_journal codec true file) x)
        (ap (λ (p : Appended × Journal). p.1) e) (next reach (append j r io)) in
    let (disk, reads, covers) = restart-Covers codec threshold file m rest h after t in
    let (same, did) = append_intent_returns codec threshold r io j k i e in
    (
      disk,
      reads,
      covers.held i (intent_record i r) (
          ap (λ o. lookup i o) did.opened
          ∙ rw (← same) (lookup-insert_self i (intent_record i r) j.memory.open_set)),
    )
