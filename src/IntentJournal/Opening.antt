-- ===== src/IntentJournal/Opening.antt =====
-- `open` of memora/intent_journal.py: the lock, the replay and the truncation of a torn final line.
use memora.Prelude.{
  ℕ, ◌+◌, ◌≤◌, ◌≡◌, refl, sym, ap, ◌∙◌, subst, Bool, true, false, none, some, List, [], ◌∷◌, ◌++◌,
  All, arith, nat_eq, Bool-cases, Option-cases, inl, inr, length, max, ℕ_comparable, nat_eq_iff,
  if◌then◌else◌,
}
use memora.IntentJournal.Record.{
  Codec, Fields, Parsed, object, other, Entry, meta, intent, resolved, Memory, empty_memory, apply,
  validate_record,
}
use memora.IntentJournal.Lines.{join, keep_length, take, IsLine, truncate-join}
use memora.IntentJournal.Ops.{Journal, held_by_another, malformed_record}
use memora.IntentJournal.Replay.{
  Replayed, replayed, malformed, replayed-injective, read_line, replay_lines, replay, replay-join,
}
use memora.IntentJournal.Covers.{IsOpen, IsConsistent, IsLog, IsLog-torn, read_line-dumps}
use memora.IntentJournal.Memories.{All-insert, distinct-insert, IsConsistent-forget, IsOpen-wider}
use memora.IntentJournal.Safety.Keeps.{IsSound}

abbrev fresh : List ℕ → Memory → Journal
fresh file m = record {
  file = file;
  fd = false;
  memory = m;
  dirty = false;
  fatal = none;
  broken = none;
}

abbrev opened_as : List ℕ → Replayed → Journal
opened_as file (malformed offset m) = record (fresh file m) { fatal = some malformed_record }
opened_as file (replayed m) = record (fresh (take (keep_length file) file) m) { fd = true }

-- `open`, where the directory and the files can be opened; `locked` says that the lock was got.
unfoldable pub open_journal : Codec → Bool → List ℕ → Journal
open_journal codec locked file =
    if locked
    then opened_as file (replay codec file)
    else record (fresh file empty_memory) { fatal = some held_by_another }

-- Every file is a run of whole lines and a tail without a newline.
pub record Split (file : List ℕ) : Type 0 where
  pub log : List (List ℕ)
  pub tail : List ℕ
  pub shape : file ≡ join 10 log ++ tail
  pub whole : All (IsLine 10) log
  pub torn : IsLine 10 tail

Split-cons : (c : ℕ) (cs : List ℕ) → nat_eq c 10 ≡ false → Split cs → Split (c ∷ cs)
Split-cons c cs h s = go s.log s.shape s.whole
  where
    go : (log : List (List ℕ)) → cs ≡ join 10 log ++ s.tail → All (IsLine 10) log → Split (c ∷ cs)
    go [] e w = record {
      log = [];
      tail = c ∷ s.tail;
      shape = ap (λ t. c ∷ t) e;
      whole = tt;
      torn = rw (h, s.torn);
    }
    go (l ∷ ls) e w = record {
      log = (c ∷ l) ∷ ls;
      tail = s.tail;
      shape = ap (λ t. c ∷ t) e;
      whole = (rw (h, w.0), w.1);
      torn = s.torn;
    }

split : (file : List ℕ) → Split file
split [] = record { log = []; tail = []; shape = refl; whole = tt; torn = refl }
split (c ∷ cs) =
    let s = split cs in
    elim (Bool-cases (nat_eq c 10)) [
      | inl e ↦ record {
        log = [] ∷ s.log;
        tail = s.tail;
        shape = rw ((nat_eq_iff c 10).0 e) (ap (λ t. 10 ∷ t) s.shape);
        whole = (refl, s.whole);
        torn = s.torn;
      }
      | inr n ↦ Split-cons c cs n s
    ]

-- What a validated entry says of its identity and its record.
abbrev EntryFits : Parsed → Entry → Type 0
EntryFits p (meta n) = 1 ≤ n
EntryFits p (intent i rec) = (1 ≤ i) × (p ≡ object rec)
EntryFits p (resolved i) = Unit

validate-fits : (p : Parsed) (e : Entry) → validate_record p ≡ some e → EntryFits p e
unfolding validate_record
validate-fits other e h = cc
validate-fits (object rec) (meta n) h = ground arith
validate-fits (object rec) (intent i r) h = (ground arith, ground arith)
validate-fits (object rec) (resolved i) h = tt

module _ (codec : Codec) where
  -- An intent that was read from some line is read from its own line too.
  intent_rereads :
      (raw : List ℕ) (i : ℕ) (rec : Fields)
      → read_line codec raw ≡ some (intent i rec)
      → read_line codec (codec.dumps rec) ≡ some (intent i rec)
  unfolding read_line
  intent_rereads raw i rec h = elim (Option-cases (codec.loads raw)) [
    | inl bad ↦ cc (rw (bad, read_line) at h)
    | inr (p, good) ↦
        let v : validate_record p ≡ some (intent i rec) = rw (good, read_line) at h in
        read_line-dumps codec rec (intent i rec)
          (ap validate_record (sym (validate-fits p (intent i rec) v).1) ∙ v)
  ]

  apply-IsConsistent :
      (raw : List ℕ) (e : Entry) (m : Memory)
      → read_line codec raw ≡ some e
      → IsConsistent codec m
      → IsConsistent codec (apply e m)
  unfolding apply
  apply-IsConsistent raw (meta n) m h k = record {
    distinct = k.distinct;
    opened = IsOpen-wider codec m.next_id (max m.next_id n) m.open_set (omega arith) k.opened;
    started = omega (arith, k.started);
  }
  apply-IsConsistent raw (resolved i) m h k = IsConsistent-forget codec i m k
  apply-IsConsistent raw (intent i rec) m h k =
      let reads : read_line codec (codec.dumps rec) ≡ some (intent i rec) =
        intent_rereads raw i rec h in
      record {
        distinct = distinct-insert i rec m.open_set k.distinct;
        opened =
            All-insert (IsOpen codec (max m.next_id (i + 1))) i rec m.open_set (reads, omega arith)
              (IsOpen-wider codec m.next_id (max m.next_id (i + 1)) m.open_set (omega arith)
                k.opened);
        started = omega arith;
      }

  replay_lines-IsConsistent :
      (offset : ℕ) (ls : List (List ℕ)) (m d : Memory)
      → IsConsistent codec m
      → replay_lines codec offset ls m ≡ replayed d
      → IsConsistent codec d
  unfolding replay_lines
  replay_lines-IsConsistent offset [] m d k h = subst (IsConsistent codec) (replayed-injective h) k
  replay_lines-IsConsistent offset (l ∷ ls) m d k h = elim (Option-cases (read_line codec l)) [
    | inl bad ↦ cc (rw (bad, replay_lines) at h)
    | inr (e, good) ↦
        replay_lines-IsConsistent (offset + length l + 1) ls (apply e m) d
          (apply-IsConsistent l e m good k) (rw (good, replay_lines) at h)
  ]

  -- Opening a file that replays gives a journal whose memory its file stands for.
  pub open_journal-IsSound :
      (file : List ℕ) (d : Memory)
      → replay codec file ≡ replayed d
      → IsSound codec (open_journal codec true file)
  unfolding open_journal empty_memory
  open_journal-IsSound file d h =
      let s = split file in
      let start : IsConsistent codec empty_memory = record {
        distinct = tt;
        opened = tt;
        started = omega arith;
      } in
      let reads : replay_lines codec 0 s.log empty_memory ≡ replayed d =
        sym (replay-join codec s.log s.tail s.whole s.torn)
        ∙ ap (λ f. replay codec f) (sym s.shape)
        ∙ h in
      let cut : take (keep_length file) file ≡ join 10 s.log =
        ap (λ f. take (keep_length f) f) s.shape ∙ truncate-join s.log s.tail s.torn in
      let l : IsLog codec (take (keep_length file) file) d = record {
        log = s.log;
        shape = cut;
        whole = s.whole;
        reads = reads;
      } in
      rw h (record {
        disk = d;
        torn = IsLog-torn codec _ d l;
        clean = λ _. l;
        covers = record { held = λ i rec e. e; ahead = omega arith };
        consistent = replay_lines-IsConsistent 0 s.log empty_memory d start reads;
      })
