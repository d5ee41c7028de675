-- ===== src/ImportLease/Freed.antt =====
-- An import lease of memora/storage.py that nobody holds any more.
use memora.Prelude.{ℕ, ◌+◌, ◌≤◌, ◌<◌, ◌≡◌, none, some, List, ◌∷◌, arith}
use memora.ImportLease.{
  Row, lease_seconds, insert_or_ignore, take_expired, held, read_back, acquire, Attempt, checks,
  renews, proven, fence, extend,
}

-- The row is missing or expired.
abbrev pub IsOver : ℕ → Row → Type 0
IsOver now none = Unit
IsOver now (some l) = l.lease_until < now

-- A lease that is left behind, by an import that died, say, blocks the store no longer than it lasts.
-- Once it is over, and no other import comes first, an import that acquires it gets it for the whole
-- time; while that time is not over a fence proves its ownership, and a fence that renews gives it the
-- whole time again, from its first reading of the clock on, if it writes while the lease lasts.
pub acquire_over :
    (me now t g t' : ℕ) (row : Row) (more : List Attempt)
    → IsOver now row
    → now ≤ t
    → t ≤ now + lease_seconds
    → t ≤ t'
    → g ≤ now + lease_seconds
    → t' ≤ t + lease_seconds
    → (acquire me now row ≡ (
      held (now + lease_seconds),
      some (record { owner = me; lease_until = now + lease_seconds }),
    ))
      × (fence me (checks t ∷ more) (acquire me now row).1 ≡ (proven, (acquire me now row).1))
      × (fence me (renews t g t' ∷ more) (acquire me now row).1
          ≡ (proven, some (record { owner = me; lease_until = t + lease_seconds })))
unfolding acquire insert_or_ignore take_expired read_back fence extend
acquire_over me now t g t' none more over a b c k d = (ground arith, ground arith, ground arith)
acquire_over me now t g t' (some l) more over a b c k d = (ground arith, ground arith, ground arith)
