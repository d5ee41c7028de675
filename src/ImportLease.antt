-- ===== src/ImportLease.antt =====
-- The import lease and the sweep of import markers of memora/storage.py. Times are whole seconds, as
-- the texts `YYYY-MM-DD HH:MM:SS` order them; imports are numbers. Each SQL statement is one step.
pub mod Keeps
pub mod Exclusive
pub mod Freed
pub mod Sweep
pub mod Swept
mod Tests
use memora.Prelude.{
  ℕ, ◌+◌, Bool, true, false, not, ◌&&◌, ◌||◌, Option, none, some, List, [], ◌∷◌, if◌then◌else◌, ltb,
  leb, nat_eq,
}

-- The one row of the table import_lease.
pub record Lease : Type 0 where
  pub owner : ℕ
  pub lease_until : ℕ

abbrev pub Row : Type 0
Row = Option Lease

-- `IMPORT_LEASE_SECONDS`
abbrev pub lease_seconds : ℕ
lease_seconds = 1800

-- The statements of `acquire`: INSERT OR IGNORE, and the take-over of an expired row.
unfoldable pub insert_or_ignore : ℕ → ℕ → Row → Row
insert_or_ignore me until none = some (record { owner = me; lease_until = until })
insert_or_ignore me until (some l) = some l

unfoldable pub take_expired : ℕ → ℕ → ℕ → Row → Row
take_expired me now until none = none
take_expired me now until (some l) =
    if ltb l.lease_until now then some (record { owner = me; lease_until = until }) else some l

-- The UPDATE of `renew`.
unfoldable pub extend : ℕ → ℕ → ℕ → Row → Row
extend me now until none = none
extend me now until (some l) =
    if nat_eq l.owner me && leb now l.lease_until
    then some (record l { lease_until = until })
    else some l

-- The DELETE of `release`.
unfoldable pub delete_own : ℕ → Row → Row
delete_own me none = none
delete_own me (some l) = if nat_eq l.owner me then none else some l

-- The DELETE of the sweep.
unfoldable pub delete_expired : ℕ → Row → Row
delete_expired now none = none
delete_expired now (some l) = if ltb l.lease_until now then none else some l

pub data Acquired : Type 0 where
  held : ℕ → Acquired
  busy : ℕ → Acquired
  row_missing : Acquired

-- The read-back of `acquire`.
unfoldable pub read_back : ℕ → Row → Acquired
read_back me none = row_missing
read_back me (some l) = if nat_eq l.owner me then held l.lease_until else busy l.lease_until

-- `acquire`, with no other import between its statements.
unfoldable pub acquire : ℕ → ℕ → Row → Acquired × Row
acquire me now row =
    let row' =
      take_expired me now (now + lease_seconds) (insert_or_ignore me (now + lease_seconds) row) in
    (read_back me row', row')

-- The read-back of `renew`: the row is this import's with the time that it wrote.
abbrev pub renewed : ℕ → ℕ → Row → Bool
renewed me until none = false
renewed me until (some l) = nat_eq l.owner me && nat_eq l.lease_until until

-- The last test of `fence`.
abbrev pub owns : ℕ → ℕ → Row → Bool
owns me now none = false
owns me now (some l) = nat_eq l.owner me && leb now l.lease_until

-- One attempt of `fence`: an error of the store before anything is written, or the readings of the clock
-- for the test, with those for the new time and the UPDATE of a renewal before them if it is due, or
-- only these where an error follows the UPDATE.
pub data Attempt : Type 0 where
  error : Attempt
  checks : ℕ → Attempt
  renews : ℕ → ℕ → ℕ → Attempt
  renews_in_part : ℕ → ℕ → Attempt

pub data Fenced : Type 0 where
  proven lost : Fenced

-- `fence` with `renew`, with no other import between its statements; no attempt is left when all the
-- `_IMPORT_WRITE_ATTEMPTS` had errors.
unfoldable pub fence : ℕ → List Attempt → Row → Fenced × Row
fence me [] row = (lost, row)
fence me (error ∷ more) row = fence me more row
fence me (checks now ∷ more) row = (if owns me now row then proven else lost, row)
fence me (renews_in_part from now ∷ more) row =
    fence me more (extend me now (from + lease_seconds) row)
fence me (renews from now now' ∷ more) row =
    let row' = extend me now (from + lease_seconds) row in
    (if renewed me (from + lease_seconds) row' && owns me now' row' then proven else lost, row')
