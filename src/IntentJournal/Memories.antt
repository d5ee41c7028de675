-- ===== src/IntentJournal/Memories.antt =====
-- The changes of a journal's memory, against those of the memory that its file stands for.
use memora.Prelude.{
  ℕ, ◌+◌, ◌≤◌, ◌<◌, ◌≡◌, ◌≢◌, none, some, List, [], ◌∷◌, All, arith, lookup, insert, remove,
  lookup-insert, lookup-remove, Bool-cases, inl, inr, nat_eq, nat_eq_iff, ℕ_comparable,
  if◌then◌else◌,
}
use memora.IntentJournal.Record.{Codec, Fields, intent, resolved, Memory, apply}
use memora.IntentJournal.Replay.{read_line}
use memora.IntentJournal.Covers.{Covers, HasDistinctKeys, IsOpen, IsConsistent}

-- A new intent, at the identity that comes next in memory.
pub Covers-intent :
    (m d : Memory) (rec : Fields)
    → Covers m d
    → Covers
        (record { open_set = insert m.next_id rec m.open_set; next_id = m.next_id + 1 })
        (apply (intent m.next_id rec) d)
unfolding apply
Covers-intent m d rec c = record {
  held = λ j r h.
      rw (lookup-insert m.next_id j rec d.open_set)
        (same j r (rw (lookup-insert m.next_id j rec m.open_set) at h));
  ahead = omega arith;
}
  where
    same :
        (j : ℕ) (r : Fields)
        → (if nat_eq m.next_id j then some rec else lookup j m.open_set) ≡ some r
        → (if nat_eq m.next_id j then some rec else lookup j d.open_set) ≡ some r
    same j r h = elim (Bool-cases (nat_eq m.next_id j)) [
      | inl e ↦ rw e (rw e at h)
      | inr e ↦ rw e (c.held j r (rw e at h))
    ]

lookup_bound :
    (codec : Codec) (n j : ℕ) (rec : Fields) (xs : List (ℕ × Fields))
    → All (IsOpen codec n) xs
    → lookup j xs ≡ some rec
    → j < n
unfolding lookup
lookup_bound codec n j rec [] h e = cc
lookup_bound codec n j rec ((i, r) ∷ xs) h e = ground (arith, lookup_bound codec n j rec xs h.1)

-- An intent that the file holds and the memory does not: its record survived a failed fsync.
pub Covers-left_over :
    (codec : Codec) (m d : Memory) (rec : Fields)
    → IsConsistent codec m
    → Covers m d
    → Covers m (apply (intent m.next_id rec) d)
unfolding apply
Covers-left_over codec m d rec k c = record {
  held = λ j r h.
      rw (lookup-insert m.next_id j rec d.open_set)
        (grind (arith, lookup_bound codec m.next_id j r m.open_set k.opened h, c.held j r h));
  ahead = grind (arith, c.ahead);
}

-- A resolution on both sides.
pub Covers-resolved :
    (i : ℕ) (m d : Memory)
    → Covers m d
    → Covers (record m { open_set = remove i m.open_set }) (apply (resolved i) d)
unfolding apply
Covers-resolved i m d c = record {
  held = λ j r h.
      rw (lookup-remove i j d.open_set) (same j r (rw (lookup-remove i j m.open_set) at h));
  ahead = c.ahead;
}
  where
    same :
        (j : ℕ) (r : Fields)
        → (if nat_eq i j then none else lookup j m.open_set) ≡ some r
        → (if nat_eq i j then none else lookup j d.open_set) ≡ some r
    same j r h = elim (Bool-cases (nat_eq i j)) [
      | inl e ↦ cc (rw e at h)
      | inr e ↦ rw e (c.held j r (rw e at h))
    ]

-- An intent that is dropped from memory alone.
pub Covers-forget :
    (i : ℕ) (m d : Memory) → Covers m d → Covers (record m { open_set = remove i m.open_set }) d
Covers-forget i m d c = record {
  held = λ j r h. same j r (rw (lookup-remove i j m.open_set) at h);
  ahead = c.ahead;
}
  where
    same :
        (j : ℕ) (r : Fields)
        → (if nat_eq i j then none else lookup j m.open_set) ≡ some r
        → lookup j d.open_set ≡ some r
    same j r h = elim (Bool-cases (nat_eq i j)) [
      | inl e ↦ cc (rw e at h)
      | inr e ↦ c.held j r (rw e at h)
    ]

module _ (P : ℕ × Fields → Type 0) where
  pub All-insert :
      (i : ℕ) (rec : Fields) (xs : List (ℕ × Fields))
      → P (i, rec)
      → All P xs
      → All P (insert i rec xs)
  unfolding insert
  All-insert i rec [] p h = (p, tt)
  All-insert i rec ((j, r) ∷ xs) p h = elim (Bool-cases (nat_eq j i)) [
    | inl e ↦ rw e (rw ((nat_eq_iff j i).0 e) p, h.1)
    | inr e ↦ rw e (h.0, All-insert i rec xs p h.1)
  ]

  pub All-remove : (i : ℕ) (xs : List (ℕ × Fields)) → All P xs → All P (remove i xs)
  unfolding remove
  All-remove i [] h = tt
  All-remove i ((j, r) ∷ xs) h = ground (arith, All-remove i xs h.1)

pub distinct-insert :
    (i : ℕ) (rec : Fields) (xs : List (ℕ × Fields))
    → HasDistinctKeys xs
    → HasDistinctKeys (insert i rec xs)
unfolding insert
distinct-insert i rec [] h = (tt, tt)
distinct-insert i rec ((j, r) ∷ xs) h = elim (Bool-cases (nat_eq j i)) [
  | inl e ↦ rw e h
  | inr e ↦
      rw e (All-insert (λ x. x.0 ≢ j) i rec xs (ground arith) h.0, distinct-insert i rec xs h.1)
]

pub distinct-remove :
    (i : ℕ) (xs : List (ℕ × Fields)) → HasDistinctKeys xs → HasDistinctKeys (remove i xs)
unfolding remove
distinct-remove i [] h = tt
distinct-remove i ((j, r) ∷ xs) h =
    ground (arith, distinct-remove i xs h.1, All-remove (λ x. x.0 ≢ j) i xs h.0)

module _ (codec : Codec) where
  pub IsOpen-wider :
      (n k : ℕ) (xs : List (ℕ × Fields)) → n ≤ k → All (IsOpen codec n) xs → All (IsOpen codec k) xs
  IsOpen-wider n k [] le h = tt
  IsOpen-wider n k ((i, r) ∷ xs) le h = ((h.0.0, omega (arith, h.0.1)), IsOpen-wider n k xs le h.1)

  pub IsConsistent-intent :
      (m : Memory) (rec : Fields)
      → read_line codec (codec.dumps rec) ≡ some (intent m.next_id rec)
      → IsConsistent codec m
      → IsConsistent codec
          (record { open_set = insert m.next_id rec m.open_set; next_id = m.next_id + 1 })
  IsConsistent-intent m rec h k = record {
    distinct = distinct-insert m.next_id rec m.open_set k.distinct;
    opened =
        All-insert (IsOpen codec (m.next_id + 1)) m.next_id rec m.open_set (h, omega arith)
          (IsOpen-wider m.next_id (m.next_id + 1) m.open_set (omega arith) k.opened);
    started = omega arith;
  }

  pub IsConsistent-forget :
      (i : ℕ) (m : Memory)
      → IsConsistent codec m
      → IsConsistent codec (record m { open_set = remove i m.open_set })
  IsConsistent-forget i m k = record {
    distinct = distinct-remove i m.open_set k.distinct;
    opened = All-remove (IsOpen codec m.next_id) i m.open_set k.opened;
    started = k.started;
  }
