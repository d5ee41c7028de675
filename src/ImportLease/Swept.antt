-- ===== src/ImportLease/Swept.antt =====
-- What the sweep of import markers of memora/storage.py leaves.
use memora.Prelude.{
  ℕ, ◌+◌, ◌≡◌, Bool, false, none, some, List, [], ◌∷◌, ◌++◌, length, if◌then◌else◌, nat_eq,
}
use memora.ImportLease.Sweep.{marker, no_text, Memory, judge, carry_out, Counts}

-- The rows that are counted one way or another.
abbrev pub accounted : Counts → ℕ
accounted c = c.completed_rows + c.removed_rows + c.pending_rows + length c.failed_rows

-- The rows whose marker names an import.
abbrev pub is_of : ℕ → Memory → Bool
is_of who m = elim m.import_attempt [
  | none ↦ false
  | some no_text ↦ false
  | some (marker owner started) ↦ nat_eq owner who
]

abbrev pub rows_of : ℕ → List Memory → List Memory
rows_of who [] = []
rows_of who (m ∷ ms) = if is_of who m then m ∷ rows_of who ms else rows_of who ms

module _ (older_than now : ℕ) (live : List ℕ) where
  -- The rows that a sweep leaves.
  abbrev left : List Memory → List Memory
  left [] = []
  left (m ∷ ms) = carry_out (judge older_than now live m) m ++ left ms

  -- The counts agree with each other and with the rows.
  record Balances (before : Counts) (ms left_rows : List Memory) (after : Counts) : Type 0 where
    sum : accounted after + before.scanned ≡ accounted before + after.scanned
    rows : length left_rows + after.removed_rows ≡ length ms + before.removed_rows
