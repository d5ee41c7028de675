-- ===== src/IntentJournal/Covers.antt =====
-- How the memory of a journal and the file that replay would read stand to one another.
use memora.Prelude.{
  ℕ, ◌≤◌, ◌<◌, ◌≡◌, refl, sym, ap, ◌∙◌, ◌≢◌, some, List, [], ◌∷◌, ◌++◌, All, All-append, arith,
  contains-append, lookup, ℕ_comparable, subst, Text_comparable,
}
use memora.IntentJournal.Record.{
  Codec, Fields, Entry, intent, Memory, empty_memory, apply, object, validate_record,
}
use memora.IntentJournal.Lines.{
  keep_length, take, join, IsLine, truncate-join, join-append, IsLine-take,
}
use memora.IntentJournal.Replay.{
  replayed, read_line, replay_lines, replay, replay-join, replay_lines-append,
}
use mathlib.Core.List.{append_assoc, append-nil}

-- The file of a journal is for the replayer at least what the memory is: each intent that is open in
-- memory is open there, with the same record, and identities start no earlier.
pub record Covers (m disk : Memory) : Type 0 where
  pub held :
      (i : ℕ) (rec : Fields) → lookup i m.open_set ≡ some rec → lookup i disk.open_set ≡ some rec
  pub ahead : m.next_id ≤ disk.next_id

abbrev pub HasDistinctKeys : List (ℕ × Fields) → Type 0
HasDistinctKeys [] = Unit
HasDistinctKeys ((i, rec) ∷ rest) = All (λ e. e.0 ≢ i) rest × HasDistinctKeys rest

module _ (codec : Codec) where
  open codec use {dumps, loads}

  -- The intents in memory are records that replay reads as such, under their own identities.
  abbrev pub IsOpen : ℕ → ℕ × Fields → Type 0
  IsOpen n (i, rec) = (read_line codec (dumps rec) ≡ some (intent i rec)) × (i < n)

  pub record IsConsistent (m : Memory) : Type 0 where
    pub distinct : HasDistinctKeys m.open_set
    pub opened : All (IsOpen m.next_id) m.open_set
    pub started : 1 ≤ m.next_id

  -- A file of whole lines that replay to `disk`.
  pub record IsLog (file : List ℕ) (disk : Memory) : Type 0 where
    pub log : List (List ℕ)
    pub shape : file ≡ join 10 log
    pub whole : All (IsLine 10) log
    pub reads : replay_lines codec 0 log empty_memory ≡ replayed disk

  -- The same with a torn tail.
  pub record IsTornLog (file : List ℕ) (disk : Memory) : Type 0 where
    pub kept : List ℕ
    pub tail : List ℕ
    pub shape : file ≡ kept ++ tail
    pub torn : IsLine 10 tail
    pub log : IsLog kept disk

  pub read_line-dumps :
      (rec : Fields) (e : Entry)
      → validate_record (object rec) ≡ some e
      → read_line codec (dumps rec) ≡ some e
  unfolding read_line
  read_line-dumps rec e h = rw (codec.loads-dumps rec, read_line) h

  pub IsLog-line :
      (file : List ℕ) (disk : Memory) (rec : Fields) (e : Entry)
      → IsLog file disk
      → read_line codec (dumps rec) ≡ some e
      → IsLog (file ++ dumps rec ++ 10 ∷ []) (apply e disk)
  IsLog-line file disk rec e l h = record {
    log = l.log ++ dumps rec ∷ [];
    shape = rw (l.shape, join-append 10 l.log (dumps rec)) refl;
    whole = All-append (IsLine 10) l.log (dumps rec ∷ []) l.whole (codec.dumps_line rec, tt);
    reads = replay_lines-append codec 0 l.log (dumps rec) empty_memory disk e l.reads h;
  }

  pub IsLog-torn : (file : List ℕ) (disk : Memory) → IsLog file disk → IsTornLog file disk
  IsLog-torn file disk l = record {
    kept = file;
    tail = [];
    shape = sym (append-nil file);
    torn = refl;
    log = l;
  }

  pub IsTornLog-short :
      (file : List ℕ) (disk : Memory) (k : ℕ) (rec : Fields)
      → IsLog file disk
      → IsTornLog (file ++ take k (dumps rec)) disk
  IsTornLog-short file disk k rec l = record {
    kept = file;
    tail = take k (dumps rec);
    shape = refl;
    torn = IsLine-take 10 k (dumps rec) (codec.dumps_line rec);
    log = l;
  }

  -- `_repair` truncates a torn file to its whole lines.
  pub truncate-IsLog :
      (file : List ℕ) (disk : Memory)
      → IsTornLog file disk
      → IsLog (take (keep_length file) file) disk
  truncate-IsLog file disk t =
      let same : file ≡ join 10 t.log.log ++ t.tail = t.shape ∙ ap (λ f. f ++ t.tail) t.log.shape in
      subst (λ f. IsLog (take (keep_length f) f) disk) (sym same)
        (subst (λ f. IsLog f disk) (t.log.shape ∙ sym (truncate-join t.log.log t.tail t.torn))
          t.log)

  IsLine-append : (s t : List ℕ) → IsLine 10 s → IsLine 10 t → IsLine 10 (s ++ t)
  IsLine-append s t h k = rw (contains-append s t 10) (ground arith)

  -- A restart reads the same memory, whatever torn bytes a dying process left behind.
  pub replay-torn :
      (file : List ℕ) (disk : Memory) (rest : List ℕ)
      → IsTornLog file disk
      → IsLine 10 rest
      → replay codec (file ++ rest) ≡ replayed disk
  replay-torn file disk rest t r =
      ap (λ f. replay codec f)
        (ap (λ f. f ++ rest) (t.shape ∙ ap (λ f. f ++ t.tail) t.log.shape)
          ∙ append_assoc (join 10 t.log.log) t.tail rest)
      ∙ replay-join codec t.log.log (t.tail ++ rest) t.log.whole
          (IsLine-append t.tail rest t.torn r)
      ∙ t.log.reads
