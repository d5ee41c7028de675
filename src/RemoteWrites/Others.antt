-- ===== src/RemoteWrites/Others.antt =====
-- What other threads of the process do to the journal of memora/intent_journal.py while one statement
-- of memora/backends.py is under way: any operations, but those on its own intent.
use memora.Prelude.{ℕ, ◌<◌, ◌≢◌, refl, arith, ℕ_comparable}
use memora.IntentJournal.Record.{Codec}
use memora.IntentJournal.Ops.{Journal}
use memora.IntentJournal.Safety.{
  Step, append, resolving, abandoning, compacting, lazy_sync, sync_failed, Reach, next,
}
use memora.IntentJournal.Frames.{
  Frame, Frame-refl, Frame-trans, append_intent-Frame, resolve-Frame, abandon-Frame, compact_memory,
  repair-memory,
}

module _ (codec : Codec) (threshold : ℕ) where
  -- The step does not resolve or abandon the intent `k`.
  abbrev pub Spares : ℕ → {j l : Journal} → Step codec threshold j l → Type 0
  Spares k (append j r io) = Unit
  Spares k (resolving j i outcome at_time durable extra io synced r d v) = k ≢ i
  Spares k (abandoning j i outcome at_time io r v) = k ≢ i
  Spares k (compacting j io) = Unit
  Spares k (lazy_sync j) = Unit
  Spares k (sync_failed j r) = Unit

  -- A run of the other threads.
  pub data Rivals (k : ℕ) (s : Journal) : Journal → Type 0 where
    quiet : Rivals k s s
    busy :
        {j l : Journal}
        → Rivals k s j
        → (st : Step codec threshold j l) → Spares k st
        → Rivals k s l

  Step-Frame :
      (k : ℕ) {j l : Journal} (st : Step codec threshold j l)
      → Spares k st
      → k < j.memory.next_id
      → Frame k j.memory l.memory
  Step-Frame k (append j r io) s old = append_intent-Frame codec threshold k r io j old
  Step-Frame k (resolving j i outcome at_time durable extra io synced r d v) s old =
      resolve-Frame codec k i outcome at_time durable extra io synced r j s
  Step-Frame k (abandoning j i outcome at_time io r v) s old =
      abandon-Frame codec k i outcome at_time io r j s
  Step-Frame k (compacting j io) s old = Frame-refl k (compact_memory codec io j)
  Step-Frame k (lazy_sync j) s old = Frame-refl k refl
  Step-Frame k (sync_failed j r) s old = Frame-refl k (repair-memory r j)

  pub Rivals-Frame :
      (k : ℕ) {s l : Journal} → Rivals k s l → k < s.memory.next_id → Frame k s.memory l.memory
  Rivals-Frame k quiet old = Frame-refl k refl
  Rivals-Frame k (busy r st sp) old =
      let f = Rivals-Frame k r old in Frame-trans f (Step-Frame k st sp (omega (arith, f.grows)))

  pub Rivals-Reach :
      (k : ℕ) {o s l : Journal}
      → Reach codec threshold o s
      → Rivals k s l
      → Reach codec threshold o l
  Rivals-Reach k from quiet = from
  Rivals-Reach k from (busy r st sp) = next (Rivals-Reach k from r) st
