-- ===== src/IntentJournal/Replay.antt =====
-- `_replay` of memora/intent_journal.py: the memory that a journal file stands for.
use memora.Prelude.{
  ℕ, ◌+◌, ◌≡◌, refl, Option, none, some, List, [], ◌∷◌, ◌++◌, All, length, ap, sym, ◌∙◌,
  Option-cases, inl, inr,
}
use memora.IntentJournal.Record.{Codec, Entry, Memory, validate_record, apply, empty_memory}
use memora.IntentJournal.Lines.{lines, keep_length, take, join, IsLine, truncate-join, lines-join}
use mathlib.Core.List.{append-nil}

-- The state that replay reached, or the byte offset of the malformed line that refuses the store and
-- what was applied before it.
pub data Replayed : Type 0 where
  replayed : Memory → Replayed
  malformed : ℕ → Memory → Replayed

abbrev memory_of : Memory → Replayed → Memory
memory_of d (replayed m) = m
memory_of d (malformed n m) = d

pub replayed-injective : {m n : Memory} → replayed m ≡ replayed n → m ≡ n
replayed-injective {m} h = ap (memory_of m) h

module _ (codec : Codec) where
  open codec use {loads}

  -- Parse and validate one line.
  unfoldable pub read_line : List ℕ → Option Entry
  read_line raw = elim (loads raw) [ none ↦ none | some parsed ↦ validate_record parsed ]

  unfoldable pub replay_lines : ℕ → List (List ℕ) → Memory → Replayed
  replay_lines offset [] m = replayed m
  replay_lines offset (raw ∷ rest) m = elim (read_line raw) [
    | none ↦ malformed offset m
    | some e ↦ replay_lines (offset + length raw + 1) rest (apply e m)
  ]

  -- A torn final line is dropped: only the bytes up to the last newline are read.
  unfoldable pub replay : List ℕ → Replayed
  unfolding replay_lines
  replay file = replay_lines 0 (lines 10 [] (take (keep_length file) file)) empty_memory

  -- Replay sees the whole lines of a file and nothing of the tail.
  pub replay-join :
      (ls : List (List ℕ)) (tail : List ℕ)
      → All (IsLine 10) ls
      → IsLine 10 tail
      → replay (join 10 ls ++ tail) ≡ replay_lines 0 ls empty_memory
  unfolding replay
  replay-join ls tail h t = rw (truncate-join ls tail t) (
      ap (λ ks. replay_lines 0 ks empty_memory)
        (ap (λ f. lines 10 [] f) (sym (append-nil (join 10 ls))) ∙ lines-join 10 ls [] h refl))

  -- One more line in the file is one more `_apply`.
  pub replay_lines-append :
      (offset : ℕ) (ls : List (List ℕ)) (l : List ℕ) (m m' : Memory) (e : Entry)
      → replay_lines offset ls m ≡ replayed m'
      → read_line l ≡ some e
      → replay_lines offset (ls ++ l ∷ []) m ≡ replayed (apply e m')
  unfolding replay_lines
  replay_lines-append offset [] l m m' e h r =
      rw (r, replay_lines) (ap (λ k. replayed (apply e k)) (replayed-injective h))
  replay_lines-append offset (k ∷ ls) l m m' e h r = elim (Option-cases (read_line k)) [
    | inl bad ↦ cc (rw (bad, replay_lines) at h)
    | inr (e', good) ↦
        rw (good, replay_lines)
          (replay_lines-append (offset + length k + 1) ls l (apply e' m) m' e
            (rw (good, replay_lines) at h) r)
  ]
