-- ===== src/ImportLease/Tests.antt =====
-- Imports and a sweep of memora/storage.py at concrete times, and the theorems applied to them.
use memora.Prelude.{◌<◌, ◌≡◌, refl, inl, some, true, false, List, [], ◌∷◌, arith}
use memora.ImportLease.{Lease, Row, take_expired, checks, renews, proven, fence, acquire, held}
use memora.ImportLease.Keeps.{Run, begin_run, run_step, time_passes, takes}
use memora.ImportLease.Exclusive.{lease_exclusive}
use memora.ImportLease.Freed.{acquire_over}
use memora.ImportLease.Sweep.{marker, no_text, Memory}

abbrev first_lease : Lease
first_lease = record { owner = 1; lease_until = 1900 }

-- The lease is not renewed, and import 2 takes it at 2000.
abbrev second_row : Row
second_row = take_expired 2 2000 3800 (some first_lease)

second_run : Run 1 100 (some first_lease) 2000 second_row
second_run =
    run_step (run_step begin_run (time_passes 100 2000 (some first_lease) (omega arith)))
      (takes 2 2000 3800 2000 (some first_lease) (omega arith))

first_proven : fence 1 (checks 150 ∷ []) (some first_lease) ≡ (proven, some first_lease)
unfolding fence
first_proven = refl

second_proven : (fence 2 (checks 2000 ∷ []) second_row).0 ≡ proven
unfolding fence take_expired
second_proven = refl

lease_exclusive_example : 1900 < 2000
lease_exclusive_example =
    lease_exclusive 1 2 100 2000 (checks 150 ∷ []) (checks 2000 ∷ []) (some first_lease) second_row
      first_lease 2000 0 (omega arith) first_proven second_run (omega arith) (inl second_proven)

abbrev marked : List Memory
marked =
    record { id = 5; import_attempt = some (marker 1 (some 100)); has_vector = true }
    ∷ record { id = 6; import_attempt = some (marker 7 (some 100)); has_vector = false }
    ∷ record { id = 7; import_attempt = some no_text; has_vector = true }
    ∷ []

acquire_over_example :
    (acquire 2 2000 (some first_lease)
      ≡ (held 3800, some (record { owner = 2; lease_until = 3800 })))
    × (fence 2 (checks 2500 ∷ []) (acquire 2 2000 (some first_lease)).1
        ≡ (proven, (acquire 2 2000 (some first_lease)).1))
    × (fence 2 (renews 2500 2500 2501 ∷ []) (acquire 2 2000 (some first_lease)).1
        ≡ (proven, some (record { owner = 2; lease_until = 4300 })))
acquire_over_example =
    acquire_over 2 2000 2500 2500 2501 (some first_lease) [] (omega arith) (omega arith)
      (omega arith) (omega arith) (omega arith) (omega arith)
