-- ===== src/IntentJournal/Ops.antt =====
-- The operations of memora/intent_journal.py on an opened journal.
use memora.Prelude.{
  ℕ, ◌+◌, Bool, true, false, not, ◌&&◌, ◌||◌, Option, none, some, List, [], ◌∷◌, ◌++◌, map, lookup,
  insert, remove, if◌then◌else◌, ltb, length, ℕ_comparable, Text_comparable,
}
use memora.Prelude.Text.{Text, codes}
use memora.IntentJournal.Record.{Codec, number, text, json, Fields, Memory}
use memora.IntentJournal.Lines.{keep_length, take, join}

pub data Fault : Type 0 where
  held_by_another cannot_open malformed_record : Fault
  inode_mismatch repair_failed compaction_failed : Fault

-- `fatal` refuses the store, `broken` refuses mutations.
pub record Journal : Type 0 where
  pub file : List ℕ
  pub fd : Bool
  pub memory : Memory
  pub dirty : Bool
  pub fatal : Option Fault
  pub broken : Option Fault

abbrev pub is_some {ℓ} : {A : Type ℓ} → Option A → Bool
is_some none = false
is_some (some a) = true

-- What a write answers: all was written, or an error after `k` bytes of the record's text.
pub data WriteIo : Type 0 where
  written : WriteIo
  short : ℕ → WriteIo

-- What the system calls of `_repair` answer: all succeed, the truncation alone, or not even that.
pub data RepairIo : Type 0 where
  repaired cut_only not_cut : RepairIo

-- Where `compact` fails, if it does: at the temporary file, at the rename, at the directory's fsync,
-- at the reopening.
pub data CompactIo : Type 0 where
  tmp_failed replace_failed dir_failed reopen_failed compacted : CompactIo

unfoldable pub repair : RepairIo → Journal → Journal
repair repaired j = record j { file = take (keep_length j.file) j.file }
repair cut_only j = record j {
  file = take (keep_length j.file) j.file;
  broken = some repair_failed;
}
repair not_cut j = record j { broken = some repair_failed }

-- The members of an intent that are not read by replay, each as JSON text.
pub record Request : Type 0 where
  pub sql : Text
  pub params_sha256 : Text
  pub target : Text
  pub keys : Text
  pub post_state : Text
  pub sent_at : Text

abbrev pub intent_record : ℕ → Request → Fields
intent_record i r =
    (codes "type", text (codes "intent"))
    ∷ (codes "id", number i)
    ∷ (codes "sql", text r.sql)
    ∷ (codes "params_sha256", text r.params_sha256)
    ∷ (codes "target", json r.target)
    ∷ (codes "keys", json r.keys)
    ∷ (codes "post_state", json r.post_state)
    ∷ (codes "sent_at", json r.sent_at)
    ∷ []

abbrev pub resolved_record : ℕ → Text → Text → Fields
resolved_record i outcome at_time =
    (codes "type", text (codes "resolved"))
    ∷ (codes "id", number i)
    ∷ (codes "outcome", text outcome)
    ∷ (codes "at", json at_time)
    ∷ []

-- `rec.update(extra)`
abbrev pub update : Fields → Fields → Fields
update rec [] = rec
update rec ((k, v) ∷ extra) = update (insert k v rec) extra

abbrev pub meta_record : ℕ → Fields
meta_record n = (codes "type", text (codes "meta")) ∷ (codes "next_id", number n) ∷ []

abbrev pub usable : Journal → Bool
usable j = not (is_some j.fatal) && not (is_some j.broken)

pub data AppendError : Type 0 where
  unusable not_open wrong_inode not_recorded not_sent : AppendError

pub data Appended : Type 0 where
  appended : ℕ → Appended
  failed : AppendError → Appended

-- What the system calls of one `append_intent` answer, in the order in which they are made; `late`
-- and `late_repair` are those of the resolution that follows a failed compaction.
pub record AppendIo : Type 0 where
  pub inode_ok : Bool
  pub write : WriteIo
  pub synced : Bool
  pub repair : RepairIo
  pub fstat_ok : Bool
  pub compact : CompactIo
  pub late : WriteIo
  pub late_repair : RepairIo

-- The open intents' records, in the order of the dict.
abbrev pub records : List (ℕ × Fields) → List Fields
records [] = []
records ((i, rec) ∷ rest) = rec ∷ records rest

-- `_open.pop(iid, None)`
unfoldable pub forget : ℕ → Journal → Journal
forget i j = record j { memory = record (j.memory) { open_set = remove i j.memory.open_set } }

module _ (codec : Codec) where
  open codec use {dumps}

  -- `compact`'s new file: the next identity, and the open intents.
  unfoldable pub compacted_file : Memory → List ℕ
  compacted_file m = join 10 (map dumps (meta_record m.next_id ∷ records m.open_set))

  -- The rename and what follows it.
  unfoldable pub replace_file : CompactIo → Journal → Journal
  unfolding compacted_file
  replace_file tmp_failed j = j
  replace_file replace_failed j = record j { broken = some compaction_failed }
  replace_file dir_failed j = record j {
    file = compacted_file j.memory;
    broken = some compaction_failed;
  }
  replace_file reopen_failed j = record j {
    file = compacted_file j.memory;
    fd = false;
    broken = some compaction_failed;
  }
  replace_file compacted j = record j { file = compacted_file j.memory; dirty = false }

  unfoldable pub compact : CompactIo → Journal → Journal
  unfolding replace_file
  compact io j = if not j.fd || not (usable j) then j else replace_file io j

  -- A record's line appended to the file, as far as the write got.
  unfoldable pub write_line : WriteIo → Fields → Journal → Journal
  write_line written rec j = record j { file = j.file ++ dumps rec ++ 10 ∷ [] }
  write_line (short k) rec j = record j { file = j.file ++ take k (dumps rec) }

  unfoldable pub append_resolution : WriteIo → RepairIo → Fields → Journal → Journal
  unfolding write_line repair
  append_resolution written r rec j = record (write_line written rec j) { dirty = true }
  append_resolution (short k) r rec j = repair r (write_line (short k) rec j)

  unfoldable pub abandon : ℕ → Text → Text → WriteIo → RepairIo → Journal → Journal
  unfolding append_resolution forget
  abandon i outcome at_time io r j =
      let j' = forget i j in
      if not j'.fd || not (usable j')
      then j'
      else append_resolution io r (resolved_record i outcome at_time) j'

  -- `_maybe_compact`, with the threshold in bytes.
  unfoldable pub maybe_compact : ℕ → AppendIo → Journal → Journal
  unfolding compact
  maybe_compact threshold io j =
      if io.fstat_ok && ltb threshold (length j.file) then compact io.compact j else j

  -- A journal that the compaction broke does not let the intent out.
  unfoldable pub finish_append : Text → ℕ → AppendIo → Journal → Appended × Journal
  finish_append at_time i io j =
      if is_some j.broken
      then (failed not_sent, abandon i (codes "not-sent") at_time io.late io.late_repair j)
      else (appended i, j)

  -- What follows a recorded intent.
  unfoldable pub after_record : ℕ → Text → ℕ → AppendIo → Journal → Appended × Journal
  after_record threshold at_time i io j = finish_append at_time i io (maybe_compact threshold io j)

  -- The write and the fsync of an intent.
  unfoldable pub record_intent :
      ℕ → Text → ℕ → Fields → AppendIo → WriteIo → Journal → Appended × Journal
  unfolding after_record write_line repair
  record_intent threshold at_time i rec io (short k) j =
      (failed not_recorded, repair io.repair (write_line (short k) rec j))
  record_intent threshold at_time i rec io written j =
      let j' = write_line written rec j in
      if io.synced
      then after_record threshold at_time i io (record j' {
        memory = record { open_set = insert i rec j.memory.open_set; next_id = i + 1 };
        dirty = false;
      })
      else (failed not_recorded, repair io.repair j')

  unfoldable pub append_intent : ℕ → Request → AppendIo → Journal → Appended × Journal
  unfolding record_intent
  append_intent threshold r io j =
      if not (usable j)
      then (failed unusable, j)
      else if not j.fd
      then (failed not_open, j)
      else if not io.inode_ok
      then (failed wrong_inode, record j { broken = some inode_mismatch })
      else let i = j.memory.next_id in
        record_intent threshold r.sent_at i (intent_record i r) io io.write j

  unfoldable pub resolve_line :
      ℕ → Fields → Bool → WriteIo → Bool → RepairIo → Journal → Bool × Journal
  unfolding write_line repair forget
  resolve_line i rec durable (short k) synced r j = (false, repair r (write_line (short k) rec j))
  resolve_line i rec durable written synced r j =
      let j' = write_line written rec j in
      if durable
      then (if synced then (true, forget i j') else (false, repair r j'))
      else (true, forget i (record j' { dirty = true }))

  unfoldable pub resolve :
      ℕ → Text → Text → Bool → Fields → WriteIo → Bool → RepairIo → Journal → Bool × Journal
  unfolding resolve_line
  resolve i outcome at_time durable extra io synced r j =
      if not (is_some (lookup i j.memory.open_set))
      then (false, j)
      else if not j.fd || not (usable j)
      then (false, j)
      else resolve_line i (update (resolved_record i outcome at_time) extra) durable io synced r j
