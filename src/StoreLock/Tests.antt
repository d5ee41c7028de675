-- ===== src/StoreLock/Tests.antt =====
-- A run of `_StoreRWLock` of memora/backends.py, and the theorems applied to it.
use memora.Prelude.{
  ◌⊎◌, ℕ, ◌≡◌, refl, true, false, some, List, [], ◌∷◌, arith, lookup, insert, remove, ℕ_comparable,
}
use memora.StoreLock.{
  StoreLock, new_lock, holds_of, acquire_shared, release_shared, close_from_gc, end_exclusive,
  grant, begin_exclusive,
}
use memora.StoreLock.Exclusion.{
  count, Run, fresh, stepped, reading, read_done, asking, granted, writer_alone,
}
use memora.StoreLock.Closing.{handed_in, close_from_gc-handed_in}

-- Thread 4 reads and stops, thread 5 waits and writes.
abbrev reader : StoreLock
reader = record new_lock { readers = (4, 1) ∷ [] }

abbrev waiter : StoreLock
waiter = record (release_shared 4 reader) { waiting = 1 }

abbrev written : StoreLock
written = record waiter { waiting = 0; writer = true; owner = some 5 }

writer_run : Run written []
unfolding new_lock acquire_shared release_shared begin_exclusive grant lookup insert remove
writer_run =
    stepped
      (stepped
        (stepped (stepped (fresh new_lock refl) (reading 4 new_lock reader [] refl))
          (read_done 4 reader (4 ∷ []) (omega arith)))
        (asking 5 (release_shared 4 reader) waiter [] refl))
      (granted 5 waiter written [] refl)

writer_alone_example :
    ((written.writer ≡ false) ⊎ (◌≡◌ {A = List ℕ} [] []))
    × ((k : ℕ) → holds_of (lookup k written.readers) ≡ count k [])
writer_alone_example = writer_alone written [] writer_run

-- A reader is in, so the connection 9 waits.
close_from_gc-handed_in_example :
    ((k : ℕ) → count k (handed_in (close_from_gc 5 9 reader)) ≡ count k (9 ∷ handed_in reader))
    × ((end_exclusive reader).closed ≡ handed_in reader)
    × ((end_exclusive reader).deferred ≡ [])
    × ((end_exclusive reader).writer ≡ false)
close_from_gc-handed_in_example = close_from_gc-handed_in 5 9 reader
