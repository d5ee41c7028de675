-- ===== src/ImportLease/Keeps.antt =====
-- What the statements of imports and sweeps of memora/storage.py do to the lease of one import.
use memora.Prelude.{
  ℕ, ◌≤◌, ◌<◌, ◌≡◌, ◌≢◌, ◌⊎◌, sym, ◌∙◌, true, ◌&&◌, none, some, arith, ltb, leb, nat_eq, nat_eq_iff,
  Bool-cases, inl, inr,
}
use memora.ImportLease.{
  Lease, Row, insert_or_ignore, take_expired, extend, delete_own, delete_expired,
}

-- What any import and the sweep do to the row while the import `a` does not release its lease. `clock`
-- is the time; a statement may carry an earlier reading of it, and readings of one clock do not go
-- back.
pub data Step (a : ℕ) : ℕ → Row → ℕ → Row → Type 0 where
  time_passes : (clock later : ℕ) (row : Row) → clock ≤ later → Step a clock row later row
  inserts :
      (who until clock : ℕ) (row : Row) → Step a clock row clock (insert_or_ignore who until row)
  takes :
      (who now until clock : ℕ) (row : Row)
      → now ≤ clock
      → Step a clock row clock (take_expired who now until row)
  extends :
      (who now until clock : ℕ) (l : Lease)
      → l.lease_until ≤ until
      → Step a clock (some l) clock (extend who now until (some l))
  releases : (who clock : ℕ) (row : Row) → who ≢ a → Step a clock row clock (delete_own who row)
  sweeps :
      (now clock : ℕ) (row : Row) → now ≤ clock → Step a clock row clock (delete_expired now row)

pub data Run (a clock : ℕ) (row : Row) : ℕ → Row → Type 0 where
  begin_run : Run a clock row clock row
  run_step : {c d : ℕ} {r s : Row} → Run a clock row c r → Step a c r d s → Run a clock row d s

-- The import `a` has the row at least until `u`, if it is not later than that.
abbrev pub Keeps : ℕ → ℕ → ℕ → Row → Type 0
Keeps a u clock none = u < clock
Keeps a u clock (some l) = (u < clock) ⊎ ((l.owner ≡ a) × (u ≤ l.lease_until))

Keeps-later :
    (a u clock later : ℕ) (row : Row) → clock ≤ later → Keeps a u clock row → Keeps a u later row
Keeps-later a u clock later none h k = omega arith
Keeps-later a u clock later (some l) h (inl over) = inl (omega arith)
Keeps-later a u clock later (some l) h (inr mine) = inr mine

-- Where the row has expired, or is another import's, the time is over.
abbrev pub Holds : ℕ → ℕ → ℕ → Lease → Type 0
Holds a u clock l = (u < clock) ⊎ ((l.owner ≡ a) × (u ≤ l.lease_until))

over_if_expired :
    (a u now clock : ℕ) (l : Lease)
    → ltb l.lease_until now ≡ true
    → now ≤ clock
    → Holds a u clock l
    → u < clock
over_if_expired a u now clock l expired h (inl over) = over
over_if_expired a u now clock l expired h (inr (mine, long)) = ground arith

pub over_if_other : (a u clock : ℕ) (l : Lease) → l.owner ≢ a → Holds a u clock l → u < clock
over_if_other a u clock l other (inl over) = over
over_if_other a u clock l other (inr (mine, long)) = absurd (other mine)

pub takes-Keeps :
    (a u who now until clock : ℕ) (row : Row)
    → now ≤ clock
    → Keeps a u clock row
    → Keeps a u clock (take_expired who now until row)
unfolding take_expired
takes-Keeps a u who now until clock none h k = k
takes-Keeps a u who now until clock (some l) h k = elim (Bool-cases (ltb l.lease_until now)) [
  | inr live ↦ rw live k
  | inl expired ↦ rw expired (inl (over_if_expired a u now clock l expired h k))
]

extends-Keeps :
    (a u who now until clock : ℕ) (l : Lease)
    → l.lease_until ≤ until
    → Keeps a u clock (some l)
    → Keeps a u clock (extend who now until (some l))
unfolding extend
extends-Keeps a u who now until clock l h k =
    elim (Bool-cases (nat_eq l.owner who && leb now l.lease_until)) [
      | inr other ↦ rw other k
      | inl own ↦ rw own (go k)
    ]
  where
    go :
        (u < clock) ⊎ ((l.owner ≡ a) × (u ≤ l.lease_until))
        → (u < clock) ⊎ ((l.owner ≡ a) × (u ≤ until))
    go (inl over) = inl over
    go (inr (mine, long)) = inr (mine, omega arith)

releases-Keeps :
    (a u who clock : ℕ) (row : Row)
    → who ≢ a
    → Keeps a u clock row
    → Keeps a u clock (delete_own who row)
unfolding delete_own
releases-Keeps a u who clock none h k = k
releases-Keeps a u who clock (some l) h k = elim (Bool-cases (nat_eq l.owner who)) [
  | inr other ↦ rw other k
  | inl own ↦
      simp own (over_if_other a u clock l (λ e. h (sym ((nat_eq_iff l.owner who).0 own) ∙ e)) k)
]

sweeps-Keeps :
    (a u now clock : ℕ) (row : Row)
    → now ≤ clock
    → Keeps a u clock row
    → Keeps a u clock (delete_expired now row)
unfolding delete_expired
sweeps-Keeps a u now clock none h k = k
sweeps-Keeps a u now clock (some l) h k = elim (Bool-cases (ltb l.lease_until now)) [
  | inr live ↦ rw live k
  | inl expired ↦ rw expired (over_if_expired a u now clock l expired h k)
]

pub inserts-Keeps :
    (a u who until clock : ℕ) (row : Row)
    → Keeps a u clock row
    → Keeps a u clock (insert_or_ignore who until row)
unfolding insert_or_ignore
inserts-Keeps a u who until clock none k = inl k
inserts-Keeps a u who until clock (some l) k = k

Step-Keeps : {a c d : ℕ} (u : ℕ) {r s : Row} → Step a c r d s → Keeps a u c r → Keeps a u d s
Step-Keeps {a} u (time_passes clock later row h) k = Keeps-later a u clock later row h k
Step-Keeps {a} u (inserts who until clock row) k = inserts-Keeps a u who until clock row k
Step-Keeps {a} u (takes who now until clock row h) k = takes-Keeps a u who now until clock row h k
Step-Keeps {a} u (extends who now until clock l h) k = extends-Keeps a u who now until clock l h k
Step-Keeps {a} u (releases who clock row h) k = releases-Keeps a u who clock row h k
Step-Keeps {a} u (sweeps now clock row h) k = sweeps-Keeps a u now clock row h k

pub Run-Keeps :
    {a c : ℕ} (u : ℕ) {r : Row} {d : ℕ} {s : Row} → Run a c r d s → Keeps a u c r → Keeps a u d s
Run-Keeps u begin_run k = k
Run-Keeps u (run_step run st) k = Step-Keeps u st (Run-Keeps u run k)
