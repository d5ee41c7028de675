-- ===== src/IntentJournal/Compaction.antt =====
-- The file that `compact` of memora/intent_journal.py writes, and the memory.
use memora.Prelude.{
  ℕ, ◌+◌, ◌≤◌, ◌≡◌, refl, sym, ap, ◌∙◌, ◌≢◌, some, List, [], ◌∷◌, ◌++◌, map, All, All-append, arith,
  insert, ℕ_comparable, max, length,
}
use mathlib.Core.List.{append_assoc, append-nil}
use memora.IntentJournal.Record.{
  Codec, Fields, meta, Memory, empty_memory, apply, object, validate_record,
}
use memora.IntentJournal.Lines.{IsLine}
use memora.IntentJournal.Ops.{records, meta_record, compacted_file}
use memora.IntentJournal.Replay.{replayed, replay_lines}
use memora.IntentJournal.Covers.{HasDistinctKeys, IsOpen, IsConsistent, IsLog, read_line-dumps}

validate-meta : (n : ℕ) → 1 ≤ n → validate_record (object (meta_record n)) ≡ some (meta n)
unfolding validate_record
validate-meta n h = ground arith

-- A key that is not there goes to the end.
insert-absent :
    (i : ℕ) (rec : Fields) (xs : List (ℕ × Fields))
    → All (λ e. e.0 ≢ i) xs
    → insert i rec xs ≡ xs ++ (i, rec) ∷ []
unfolding insert
insert-absent i rec [] h = refl
insert-absent i rec ((j, r) ∷ xs) h = ground (arith, insert-absent i rec xs h.1)

All-join : (codec : Codec) (rs : List Fields) → All (IsLine 10) (map codec.dumps rs)
All-join codec [] = tt
All-join codec (r ∷ rs) = (codec.dumps_line r, All-join codec rs)

-- The keys of `xs` differ from those of `acc`.
abbrev IsApart : List (ℕ × Fields) → List (ℕ × Fields) → Type 0
IsApart acc xs = All (λ x. All (λ e. e.0 ≢ x.0) acc) xs

IsApart-step :
    (acc : List (ℕ × Fields)) (i : ℕ) (rec : Fields) (xs : List (ℕ × Fields))
    → All (λ e. e.0 ≢ i) xs
    → IsApart acc xs
    → IsApart (acc ++ (i, rec) ∷ []) xs
IsApart-step acc i rec [] h k = tt
IsApart-step acc i rec ((j, r) ∷ xs) h k = (
  All-append (λ e. e.0 ≢ j) acc ((i, rec) ∷ []) k.0 ((λ e. h.0 (sym e)), tt),
  IsApart-step acc i rec xs h.1 k.1,
)

module _ (codec : Codec) (n : ℕ) where
  replay-records :
      (offset : ℕ) (acc xs : List (ℕ × Fields))
      → All (IsOpen codec n) xs
      → HasDistinctKeys xs
      → IsApart acc xs
      → replay_lines codec offset
          (map codec.dumps (records xs))
          (record { open_set = acc; next_id = n })
        ≡ replayed (record { open_set = acc ++ xs; next_id = n })
  unfolding replay_lines apply
  replay-records offset acc [] h d a = rw append-nil
  replay-records offset acc ((i, rec) ∷ xs) h d a =
      let seen : max n (i + 1) ≡ n = omega (arith, h.0.1) in
      rw (h.0.0, replay_lines)
        (rw (seen, insert-absent i rec acc a.0)
          (replay-records (offset + length (codec.dumps rec) + 1) (acc ++ (i, rec) ∷ []) xs h.1 d.1
              (IsApart-step acc i rec xs d.0 a.1)
            ∙ ap (λ l. replayed (record { open_set = l; next_id = n }))
                (append_assoc acc ((i, rec) ∷ []) xs)))

IsApart-empty : (xs : List (ℕ × Fields)) → IsApart [] xs
IsApart-empty [] = tt
IsApart-empty (x ∷ xs) = (tt, IsApart-empty xs)

-- The compacted file is a log of the memory that it was made from.
pub compacted_file-IsLog :
    (codec : Codec) (m : Memory) → IsConsistent codec m → IsLog codec (compacted_file codec m) m
unfolding compacted_file replay_lines apply empty_memory
compacted_file-IsLog codec m k =
    let head =
      read_line-dumps codec (meta_record m.next_id) (meta m.next_id)
        (validate-meta m.next_id k.started) in
    let first : max 1 m.next_id ≡ m.next_id = omega (arith, k.started) in
    record {
      log = map codec.dumps (meta_record m.next_id ∷ records m.open_set);
      shape = refl;
      whole = All-join codec (meta_record m.next_id ∷ records m.open_set);
      reads =
          rw (head, replay_lines)
            (rw first (
              replay-records codec m.next_id (0 + length (codec.dumps (meta_record m.next_id)) + 1)
                [] m.open_set k.opened k.distinct (IsApart-empty m.open_set)));
    }
