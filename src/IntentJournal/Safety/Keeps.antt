-- ===== src/IntentJournal/Safety/Keeps.antt =====
-- The file and the memory under each operation of memora/intent_journal.py.
use memora.Prelude.{
  ℕ_comparable, ℕ, ◌≡◌, refl, Bool, true, false, not, ◌||◌, none, some, ◌++◌, lookup, Bool-cases,
  inl, inr, arith,
}
use memora.Prelude.Text.{Text}
use memora.IntentJournal.Record.{
  Codec, Fields, Entry, resolved, Memory, apply, object, validate_record,
}
use memora.IntentJournal.Lines.{keep_length, take}
use memora.IntentJournal.Ops.{
  Journal, CompactIo, tmp_failed, replace_failed, dir_failed, reopen_failed, compacted, WriteIo,
  written, short, RepairIo, repaired, cut_only, not_cut, is_some, usable, resolved_record, update,
  compacted_file, repair, write_line, forget, compact, abandon, append_resolution, replace_file,
  resolve_line, resolve,
}
use memora.IntentJournal.Replay.{read_line}
use memora.IntentJournal.Covers.{
  Covers, IsConsistent, IsLog, IsTornLog, read_line-dumps, IsLog-line, IsLog-torn, IsTornLog-short,
  truncate-IsLog,
}
use memora.IntentJournal.Memories.{Covers-resolved, Covers-forget, IsConsistent-forget}
use memora.IntentJournal.Compaction.{compacted_file-IsLog}

pub not_broken : (j : Journal) → usable j ≡ true → j.broken ≡ none
not_broken j h = ground arith

module _ (codec : Codec) where
  -- The file is a log with at most a torn tail, and with none while the journal is not broken; the
  -- memory that it replays to covers the journal's.
  pub record IsSound (j : Journal) : Type 0 where
    pub disk : Memory
    pub torn : IsTornLog codec j.file disk
    pub clean : j.broken ≡ none → IsLog codec j.file disk
    pub covers : Covers j.memory disk
    pub consistent : IsConsistent codec j.memory

  pub repair-IsSound : (r : RepairIo) (j : Journal) → IsSound j → IsSound (repair r j)
  unfolding repair
  repair-IsSound repaired j s = record {
    disk = s.disk;
    torn = IsLog-torn codec _ s.disk (truncate-IsLog codec j.file s.disk s.torn);
    clean = λ e. truncate-IsLog codec j.file s.disk s.torn;
    covers = s.covers;
    consistent = s.consistent;
  }
  repair-IsSound cut_only j s = record {
    disk = s.disk;
    torn = IsLog-torn codec _ s.disk (truncate-IsLog codec j.file s.disk s.torn);
    clean = λ e. cc;
    covers = s.covers;
    consistent = s.consistent;
  }
  repair-IsSound not_cut j s = record {
    disk = s.disk;
    torn = s.torn;
    clean = λ e. cc;
    covers = s.covers;
    consistent = s.consistent;
  }

  -- A torn write, repaired or not: the repair makes no use of the journal's being unbroken.
  pub short-repair-IsSound :
      (k : ℕ) (r : RepairIo) (rec : Fields) (j : Journal)
      → IsSound j
      → j.broken ≡ none
      → IsSound (repair r (write_line codec (short k) rec j))
  unfolding repair write_line
  short-repair-IsSound k r rec j s b =
      let t = IsTornLog-short codec j.file s.disk k rec (s.clean b) in
      go r t (truncate-IsLog codec (j.file ++ take k (codec.dumps rec)) s.disk t)
    where
      go :
          (r : RepairIo)
          → IsTornLog codec (j.file ++ take k (codec.dumps rec)) s.disk
          → IsLog codec
              (take
                (keep_length (j.file ++ take k (codec.dumps rec)))
                (j.file ++ take k (codec.dumps rec)))
              s.disk
          → IsSound (repair r (write_line codec (short k) rec j))
      go repaired t l = record {
        disk = s.disk;
        torn = IsLog-torn codec _ s.disk l;
        clean = λ e. l;
        covers = s.covers;
        consistent = s.consistent;
      }
      go cut_only t l = record {
        disk = s.disk;
        torn = IsLog-torn codec _ s.disk l;
        clean = λ e. cc;
        covers = s.covers;
        consistent = s.consistent;
      }
      go not_cut t l = record {
        disk = s.disk;
        torn = t;
        clean = λ e. cc;
        covers = s.covers;
        consistent = s.consistent;
      }

  -- A whole line whose entry leaves the memory covered.
  pub line-IsSound :
      (rec : Fields) (e : Entry) (j : Journal) (s : IsSound j)
      → j.broken ≡ none
      → read_line codec (codec.dumps rec) ≡ some e
      → Covers j.memory (apply e s.disk)
      → IsSound (write_line codec written rec j)
  unfolding write_line
  line-IsSound rec e j s b h c =
      let l = IsLog-line codec j.file s.disk rec e (s.clean b) h in
      record {
        disk = apply e s.disk;
        torn = IsLog-torn codec _ (apply e s.disk) l;
        clean = λ _. l;
        covers = c;
        consistent = s.consistent;
      }

  replace_file-IsSound :
      (io : CompactIo) (j : Journal) → IsSound j → IsSound (replace_file codec io j)
  unfolding replace_file
  replace_file-IsSound io j s = go io
    where
      l : IsLog codec (compacted_file codec j.memory) j.memory
      l = compacted_file-IsLog codec j.memory s.consistent

      t : IsTornLog codec (compacted_file codec j.memory) j.memory
      t = IsLog-torn codec _ j.memory l

      same : Covers j.memory j.memory
      same = record { held = λ i rec h. h; ahead = omega arith }

      go : (io : CompactIo) → IsSound (replace_file codec io j)
      go tmp_failed = s
      go replace_failed = record {
        disk = s.disk;
        torn = s.torn;
        clean = λ e. cc;
        covers = s.covers;
        consistent = s.consistent;
      }
      go dir_failed = record {
        disk = j.memory;
        torn = t;
        clean = λ e. cc;
        covers = same;
        consistent = s.consistent;
      }
      go reopen_failed = record {
        disk = j.memory;
        torn = t;
        clean = λ e. cc;
        covers = same;
        consistent = s.consistent;
      }
      go compacted = record {
        disk = j.memory;
        torn = t;
        clean = λ e. l;
        covers = same;
        consistent = s.consistent;
      }

  pub compact-IsSound : (io : CompactIo) (j : Journal) → IsSound j → IsSound (compact codec io j)
  unfolding compact
  compact-IsSound io j s = elim (Bool-cases (not j.fd || not (usable j))) [
    | inl shut ↦ rw shut s
    | inr opened ↦ rw opened (replace_file-IsSound io j s)
  ]

  pub forget-IsSound : (i : ℕ) (j : Journal) → IsSound j → IsSound (forget i j)
  unfolding forget
  forget-IsSound i j s = record {
    disk = s.disk;
    torn = s.torn;
    clean = s.clean;
    covers = Covers-forget i j.memory s.disk s.covers;
    consistent = IsConsistent-forget codec i j.memory s.consistent;
  }

  pub dirty-IsSound : (d : Bool) (j : Journal) → IsSound j → IsSound (record j { dirty = d })
  dirty-IsSound d j s = record {
    disk = s.disk;
    torn = s.torn;
    clean = s.clean;
    covers = s.covers;
    consistent = s.consistent;
  }

  -- A whole resolution line, and the intent dropped from memory.
  resolution-IsSound :
      (rec : Fields) (i : ℕ) (j : Journal)
      → IsSound j
      → j.broken ≡ none
      → read_line codec (codec.dumps rec) ≡ some (resolved i)
      → IsSound (forget i (write_line codec written rec j))
  unfolding forget write_line
  resolution-IsSound rec i j s b h =
      let l = IsLog-line codec j.file s.disk rec (resolved i) (s.clean b) h in
      record {
        disk = apply (resolved i) s.disk;
        torn = IsLog-torn codec _ (apply (resolved i) s.disk) l;
        clean = λ _. l;
        covers = Covers-resolved i j.memory s.disk s.covers;
        consistent = IsConsistent-forget codec i j.memory s.consistent;
      }

  ready-broken : (j : Journal) → (not j.fd || not (usable j)) ≡ false → j.broken ≡ none
  ready-broken j h = ground arith

  pub abandon-IsSound :
      (i : ℕ) (outcome at_time : Text) (io : WriteIo) (r : RepairIo) (j : Journal)
      → validate_record (object (resolved_record i outcome at_time)) ≡ some (resolved i)
      → IsSound j
      → IsSound (abandon codec i outcome at_time io r j)
  unfolding abandon append_resolution forget write_line
  abandon-IsSound i outcome at_time io r j v s = elim (Bool-cases (not j.fd || not (usable j))) [
    | inl shut ↦ rw shut (forget-IsSound i j s)
    | inr ready ↦ rw ready (go (ready-broken j ready) io)
  ]
    where
      h : read_line codec (codec.dumps (resolved_record i outcome at_time)) ≡ some (resolved i)
      h = read_line-dumps codec (resolved_record i outcome at_time) (resolved i) v

      go :
          (b : j.broken ≡ none) (io : WriteIo)
          → IsSound (append_resolution codec io r (resolved_record i outcome at_time) (forget i j))
      go b written =
          dirty-IsSound true _ (resolution-IsSound (resolved_record i outcome at_time) i j s b h)
      go b (short k) =
          short-repair-IsSound k r (resolved_record i outcome at_time) (forget i j)
            (forget-IsSound i j s) b

  resolve_line-IsSound :
      (i : ℕ) (rec : Fields) (durable : Bool) (io : WriteIo) (synced : Bool) (r : RepairIo)
      (j : Journal)
      → (durable ≡ true → synced ≡ true)
      → read_line codec (codec.dumps rec) ≡ some (resolved i)
      → j.broken ≡ none
      → IsSound j
      → IsSound (resolve_line codec i rec durable io synced r j).1
  unfolding resolve_line
  resolve_line-IsSound i rec durable (short k) synced r j d h b s =
      short-repair-IsSound k r rec j s b
  resolve_line-IsSound i rec true written synced r j d h b s =
      rw (d refl) (resolution-IsSound rec i j s b h)
  resolve_line-IsSound i rec false written synced r j d h b s =
      dirty-IsSound true _ (resolution-IsSound rec i j s b h)

  pub resolve-IsSound :
      (i : ℕ) (outcome at_time : Text) (durable : Bool) (extra : Fields) (io : WriteIo)
      (synced : Bool) (r : RepairIo) (j : Journal)
      → (durable ≡ true → synced ≡ true)
      → validate_record (object (update (resolved_record i outcome at_time) extra))
        ≡ some (resolved i)
      → IsSound j
      → IsSound (resolve codec i outcome at_time durable extra io synced r j).1
  unfolding resolve
  resolve-IsSound i outcome at_time durable extra io synced r j d v s =
      elim (Bool-cases (is_some (lookup i j.memory.open_set))) [
        | inr absent ↦ rw absent s
        | inl present ↦ elim (Bool-cases (not j.fd || not (usable j))) [
          | inl shut ↦ rw (present, shut) s
          | inr ready ↦
              rw (present, ready)
                (resolve_line-IsSound i (update (resolved_record i outcome at_time) extra) durable
                  io synced r j d (read_line-dumps codec _ (resolved i) v) (ready-broken j ready) s)
        ]
      ]
