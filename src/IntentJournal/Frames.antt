-- ===== src/IntentJournal/Frames.antt =====
-- What the operations of memora/intent_journal.py leave alone in the memory of the journal.
use memora.Prelude.{
  ℕ, ◌+◌, ◌<◌, ◌≤◌, ◌≡◌, refl, ap, ◌∙◌, ◌≢◌, Bool, false, arith, Bool-cases, inl, inr, lookup,
  insert, remove, lookup-insert, lookup-remove, nat_eq_iff, ℕ_comparable, not, ◌&&◌, ◌||◌, ltb,
  length,
}
use memora.Prelude.Text.{Text}
use memora.IntentJournal.Record.{Codec, Fields, Memory}
use memora.IntentJournal.Ops.{
  Journal, Request, AppendIo, CompactIo, tmp_failed, replace_failed, dir_failed, reopen_failed,
  compacted, WriteIo, written, short, RepairIo, repaired, cut_only, not_cut, is_some, usable,
  repair, forget, compact, write_line, append_resolution, abandon, maybe_compact, finish_append,
  after_record, record_intent, append_intent, resolve_line, resolve, update, resolved_record,
}

pub repair-memory : (r : RepairIo) (j : Journal) → (repair r j).memory ≡ j.memory
unfolding repair
repair-memory repaired j = refl
repair-memory cut_only j = refl
repair-memory not_cut j = refl

module _ (codec : Codec) where
  write_line-memory :
      (w : WriteIo) (rec : Fields) (j : Journal) → (write_line codec w rec j).memory ≡ j.memory
  unfolding write_line
  write_line-memory written rec j = refl
  write_line-memory (short k) rec j = refl

  pub append_resolution-memory :
      (w : WriteIo) (r : RepairIo) (rec : Fields) (j : Journal)
      → (append_resolution codec w r rec j).memory ≡ j.memory
  unfolding append_resolution
  append_resolution-memory written r rec j = write_line-memory written rec j
  append_resolution-memory (short k) r rec j =
      repair-memory r (write_line codec (short k) rec j) ∙ write_line-memory (short k) rec j

  pub abandon-memory :
      (i : ℕ) (outcome at_time : Text) (w : WriteIo) (r : RepairIo) (j : Journal)
      → (abandon codec i outcome at_time w r j).memory
        ≡ record (j.memory) { open_set = remove i j.memory.open_set }
  unfolding abandon forget
  abandon-memory i outcome at_time w r j = elim (Bool-cases (not j.fd || not (usable j))) [
    | inl shut ↦ rw shut refl
    | inr ready ↦ rw ready (append_resolution-memory w r _ (forget i j))
  ]

  pub compact_memory : (io : CompactIo) (j : Journal) → (compact codec io j).memory ≡ j.memory
  unfolding compact
  compact_memory tmp_failed j = ground arith
  compact_memory replace_failed j = ground arith
  compact_memory dir_failed j = ground arith
  compact_memory reopen_failed j = ground arith
  compact_memory compacted j = ground arith

  -- A resolution leaves the other intents, and the identities.
  pub resolve_line_frame :
      (i k : ℕ) (rec : Fields) (durable : Bool) (w : WriteIo) (synced : Bool) (r : RepairIo)
      (j : Journal)
      → k ≢ i
      → (lookup k (resolve_line codec i rec durable w synced r j).1.memory.open_set
          ≡ lookup k j.memory.open_set)
        × ((resolve_line codec i rec durable w synced r j).1.memory.next_id ≡ j.memory.next_id)
  unfolding resolve_line forget
  resolve_line_frame i k rec durable (short n) synced r j apart =
      let same =
        repair-memory r (write_line codec (short n) rec j) ∙ write_line-memory (short n) rec j in
      (ap (λ (m : Memory). lookup k m.open_set) same, ap (λ (m : Memory). m.next_id) same)
  resolve_line_frame i k rec durable written synced r j apart =
      let same = write_line-memory written rec j in
      let open_same = ap (λ (m : Memory). lookup k m.open_set) same in
      let next_same = ap (λ (m : Memory). m.next_id) same in
      let fixed = repair-memory r (write_line codec written rec j) in
      ground (
        arith,
        open_same,
        next_same,
        fixed,
        lookup-remove i k (write_line codec written rec j).memory.open_set,
        nat_eq_iff i k,
      )

  maybe_compact-memory :
      (threshold : ℕ) (io : AppendIo) (j : Journal)
      → (maybe_compact codec threshold io j).memory ≡ j.memory
  unfolding maybe_compact
  maybe_compact-memory threshold io j =
      elim (Bool-cases (io.fstat_ok && ltb threshold (length j.file))) [
        | inr small ↦ rw small refl
        | inl big ↦ rw big (compact_memory io.compact j)
      ]

-- What an operation that is not about the intent `k` leaves alone: its record, and that its identity
-- is an old one.
pub record Frame (k : ℕ) (m m' : Memory) : Type 0 where
  pub same : lookup k m'.open_set ≡ lookup k m.open_set
  pub grows : m.next_id ≤ m'.next_id

pub Frame-refl : (k : ℕ) {m m' : Memory} → m' ≡ m → Frame k m m'
Frame-refl k e = record {
  same = ap (λ (x : Memory). lookup k x.open_set) e;
  grows = let e' = ap (λ (x : Memory). x.next_id) e in omega arith;
}

pub Frame-trans : {k : ℕ} {m m' m'' : Memory} → Frame k m m' → Frame k m' m'' → Frame k m m''
Frame-trans f g = record { same = g.same ∙ f.same; grows = omega (arith, f.grows, g.grows) }

Frame-remove :
    (k i : ℕ) (m m' : Memory)
    → k ≢ i
    → m' ≡ record m { open_set = remove i m.open_set }
    → Frame k m m'
Frame-remove k i m m' apart e =
    let at_k = lookup-remove i k m.open_set in
    record {
      same = ap (λ (x : Memory). lookup k x.open_set) e ∙ ground (arith, at_k, nat_eq_iff i k);
      grows = let e' = ap (λ (x : Memory). x.next_id) e in omega arith;
    }

Frame-insert :
    (k i : ℕ) (rec : Fields) (m : Memory)
    → k ≢ i
    → m.next_id ≡ i
    → Frame k m (record { open_set = insert i rec m.open_set; next_id = i + 1 })
Frame-insert k i rec m apart e =
    let at_k = lookup-insert i k rec m.open_set in
    record { same = ground (arith, at_k, nat_eq_iff i k); grows = omega arith }

module _ (codec : Codec) where
  pub abandon-Frame :
      (k i : ℕ) (outcome at_time : Text) (w : WriteIo) (r : RepairIo) (j : Journal)
      → k ≢ i
      → Frame k j.memory (abandon codec i outcome at_time w r j).memory
  abandon-Frame k i outcome at_time w r j apart =
      Frame-remove k i j.memory _ apart (abandon-memory codec i outcome at_time w r j)

  finish_append-Frame :
      (k i : ℕ) (at_time : Text) (io : AppendIo) (j : Journal)
      → k ≢ i
      → Frame k j.memory (finish_append codec at_time i io j).1.memory
  unfolding finish_append
  finish_append-Frame k i at_time io j apart = elim (Bool-cases (is_some j.broken)) [
    | inl bad ↦ rw bad (abandon-Frame k i _ at_time io.late io.late_repair j apart)
    | inr good ↦ rw good (Frame-refl k refl)
  ]

  record_intent-Frame :
      (threshold k i : ℕ) (at_time : Text) (rec : Fields) (io : AppendIo) (w : WriteIo)
      (j : Journal)
      → k ≢ i
      → j.memory.next_id ≡ i
      → Frame k j.memory (record_intent codec threshold at_time i rec io w j).1.memory
  unfolding record_intent after_record
  record_intent-Frame threshold k i at_time rec io (short n) j apart e = Frame-refl k (
      repair-memory io.repair (write_line codec (short n) rec j)
      ∙ write_line-memory codec (short n) rec j)
  record_intent-Frame threshold k i at_time rec io written j apart e =
      let j' : Journal = write_line codec written rec j in
      elim (Bool-cases io.synced) [
        | inr bad ↦
            rw bad
              (Frame-refl k (repair-memory io.repair j' ∙ write_line-memory codec written rec j))
        | inl good ↦ simp good (
            let added : Journal = record j' {
              memory = record { open_set = insert i rec j.memory.open_set; next_id = i + 1 };
              dirty = false;
            } in
            Frame-trans
              (Frame-trans (Frame-insert k i rec j.memory apart e)
                (Frame-refl k (maybe_compact-memory codec threshold io added)))
              (finish_append-Frame k i at_time io (maybe_compact codec threshold io added) apart))
      ]

  -- An intent that is about to get an identity leaves the earlier ones.
  pub append_intent-Frame :
      (threshold k : ℕ) (r : Request) (io : AppendIo) (j : Journal)
      → k < j.memory.next_id
      → Frame k j.memory (append_intent codec threshold r io j).1.memory
  unfolding append_intent
  append_intent-Frame threshold k r io j old = elim (Bool-cases (not (usable j))) [
    | inl shut ↦ rw shut (Frame-refl k refl)
    | inr ready ↦ rw ready (elim (Bool-cases (not j.fd)) [
      | inl closed ↦ rw closed (Frame-refl k refl)
      | inr opened ↦ rw opened (elim (Bool-cases (not io.inode_ok)) [
        | inl moved ↦ rw moved (Frame-refl k refl)
        | inr held ↦ rw held (
            record_intent-Frame threshold k j.memory.next_id r.sent_at _ io io.write j
              (λ e. absurd (omega arith)) refl)
      ])
    ])
  ]

  -- A resolution of another intent.
  pub resolve-Frame :
      (k i : ℕ) (outcome at_time : Text) (durable : Bool) (extra : Fields) (w : WriteIo)
      (synced : Bool) (r : RepairIo) (j : Journal)
      → k ≢ i
      → Frame k j.memory (resolve codec i outcome at_time durable extra w synced r j).1.memory
  unfolding resolve
  resolve-Frame k i outcome at_time durable extra w synced r j apart =
      elim (Bool-cases (not (is_some (lookup i j.memory.open_set)))) [
        | inl gone ↦ rw gone (Frame-refl k refl)
        | inr there ↦ rw there (elim (Bool-cases (not j.fd || not (usable j))) [
          | inl shut ↦ rw shut (Frame-refl k refl)
          | inr ready ↦ rw ready (
              let f =
                resolve_line_frame codec i k (update (resolved_record i outcome at_time) extra)
                  durable w synced r j apart in
              record { same = f.0; grows = let e = f.1 in omega arith })
        ])
      ]
