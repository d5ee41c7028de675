-- ===== src/ImportLease/Sweep.antt =====
-- `sweep_import_markers` of memora/storage.py, with no other writer between its statements.
use memora.Prelude.{
  ℕ, ◌+◌, Bool, false, ◌||◌, Option, none, some, List, [], ◌∷◌, ◌++◌, if◌then◌else◌, ltb, leb,
  nat_eq,
}
use memora.ImportLease.{Row, delete_expired}

-- A row's import marker, as `_import_marker_time` and the split at the first colon read it: its owner
-- and, unless it is malformed, its time; or a value that is no text.
pub data Marker : Type 0 where
  marker : ℕ → Option ℕ → Marker
  no_text : Marker

-- A row of memories with what the sweep reads of it.
pub record Memory : Type 0 where
  pub id : ℕ
  pub import_attempt : Option Marker
  pub has_vector : Bool

-- `_live_import_ids`
unfoldable pub live_import_ids : ℕ → Row → List ℕ
live_import_ids now none = []
live_import_ids now (some l) = if leb now l.lease_until then l.owner ∷ [] else []

abbrev pub is_live : List ℕ → ℕ → Bool
is_live [] who = false
is_live (i ∷ is) who = nat_eq i who || is_live is who

-- `started is not None and now - started < older_than_s`
abbrev pub is_young : ℕ → ℕ → Option ℕ → Bool
is_young older_than now none = false
is_young older_than now (some started) = ltb now (started + older_than)

pub data Verdict : Type 0 where
  unmarked live_lease pending completed removed : Verdict
  failed : Verdict

-- The branches of the loop for one row.
unfoldable pub judge : ℕ → ℕ → List ℕ → Memory → Verdict
judge older_than now live m = elim m.import_attempt [
  | none ↦ unmarked
  | some no_text ↦ if m.has_vector then completed else failed
  | some (marker owner started) ↦
      if is_live live owner
      then live_lease
      else if is_young older_than now started
      then pending
      else if m.has_vector
      then completed
      else removed
]

-- What becomes of the row.
unfoldable pub carry_out : Verdict → Memory → List Memory
carry_out completed m = record m { import_attempt = none } ∷ []
carry_out removed m = []
carry_out v m = m ∷ []

pub record Counts : Type 0 where
  pub scanned : ℕ
  pub completed_rows : ℕ
  pub removed_rows : ℕ
  pub pending_rows : ℕ
  pub live_leases : ℕ
  pub failed_rows : List ℕ

unfoldable pub tally : Verdict → Memory → Counts → Counts
tally unmarked m c = c
tally live_lease m c = record c {
  scanned = c.scanned + 1;
  pending_rows = c.pending_rows + 1;
  live_leases = c.live_leases + 1;
}
tally pending m c = record c { scanned = c.scanned + 1; pending_rows = c.pending_rows + 1 }
tally completed m c = record c { scanned = c.scanned + 1; completed_rows = c.completed_rows + 1 }
tally removed m c = record c { scanned = c.scanned + 1; removed_rows = c.removed_rows + 1 }
tally failed m c = record c { scanned = c.scanned + 1; failed_rows = c.failed_rows ++ m.id ∷ [] }

unfoldable pub sweep_rows : ℕ → ℕ → List ℕ → List Memory → Counts → List Memory × Counts
unfolding judge carry_out tally
sweep_rows older_than now live [] c = ([], c)
sweep_rows older_than now live (m ∷ ms) c =
    let v = judge older_than now live m in
    let (rest, c') = sweep_rows older_than now live ms (tally v m c) in (carry_out v m ++ rest, c')

abbrev pub no_counts : Counts
no_counts = record {
  scanned = 0;
  completed_rows = 0;
  removed_rows = 0;
  pending_rows = 0;
  live_leases = 0;
  failed_rows = [];
}

-- The whole sweep: the leases are read first, and expired ones are dropped at the end.
unfoldable pub sweep_import_markers : ℕ → ℕ → Row → List Memory → (List Memory × Counts) × Row
unfolding sweep_rows live_import_ids delete_expired
sweep_import_markers older_than now row ms =
    (sweep_rows older_than now (live_import_ids now row) ms no_counts, delete_expired now row)
