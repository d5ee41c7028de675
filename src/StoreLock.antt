-- ===== src/StoreLock.antt =====
-- `_StoreRWLock` of memora/backends.py: the readers and the one writer of a local store in a process.
-- Each method is cut where it waits, so a part of it is one step under the lock's condition.
pub mod Exclusion
pub mod Closing
mod Tests
use memora.Prelude.{
  ℕ, ◌+◌, ◌-◌, Bool, true, false, not, ◌&&◌, ◌||◌, Option, none, some, List, [], ◌∷◌, ◌++◌,
  if◌then◌else◌, ltb, leb, nat_eq, lookup, insert, remove, ℕ_comparable,
}

-- `readers` is the dict from a thread to its shared holds; `closed` lists the connections that were
-- handed to a close, in order.
pub record StoreLock : Type 0 where
  pub readers : List (ℕ × ℕ)
  pub writer : Bool
  pub owner : Option ℕ
  pub waiting : ℕ
  pub deferred : List ℕ
  pub draining : Bool
  pub closed : List ℕ

unfoldable pub new_lock : StoreLock
new_lock = record {
  readers = [];
  writer = false;
  owner = none;
  waiting = 0;
  deferred = [];
  draining = false;
  closed = [];
}

abbrev pub reads : ℕ → StoreLock → Bool
reads me l = elim (lookup me l.readers) [ none ↦ false | some n ↦ true ]

abbrev pub holds_of : Option ℕ → ℕ
holds_of none = 0
holds_of (some n) = n

abbrev pub none_left {ℓ} : {A : Type ℓ} → List A → Bool
none_left [] = true
none_left (x ∷ xs) = false

-- `acquire_shared`, one round of its loop: `none` is a wait, or its timeout.
unfoldable pub acquire_shared : ℕ → StoreLock → Option StoreLock
acquire_shared me l =
    if not (reads me l) && (l.writer || ltb 0 l.waiting)
    then none
    else some (record l { readers = insert me (holds_of (lookup me l.readers) + 1) l.readers })

-- `release_shared`, up to the drain.
unfoldable pub release_shared : ℕ → StoreLock → StoreLock
release_shared holder l =
    let count = holds_of (lookup holder l.readers) in
    if leb count 1
    then record l { readers = remove holder l.readers }
    else record l { readers = insert holder (count - 1) l.readers }

-- `_try_exclusive`
unfoldable pub try_exclusive : ℕ → Bool → StoreLock → Option StoreLock
try_exclusive me ignore_waiting l =
    if l.writer || not (none_left l.readers) || (ltb 0 l.waiting && not ignore_waiting)
    then none
    else some (record l { writer = true; owner = some me })

-- `_release_exclusive`
unfoldable pub release_exclusive : StoreLock → StoreLock
release_exclusive l = record l { writer = false; owner = none }

abbrev pub owned_by : ℕ → StoreLock → Bool
owned_by me l = l.writer && elim l.owner [ none ↦ false | some who ↦ nat_eq who me ]

-- `exclusive` up to its wait: its holder goes in again, a reader gets an error, any other waits.
pub data Entry : Type 0 where
  nested would_deadlock : Entry
  waits : StoreLock → Entry

unfoldable pub begin_exclusive : ℕ → StoreLock → Entry
begin_exclusive me l =
    if owned_by me l
    then nested
    else if reads me l
    then would_deadlock
    else waits (record l { waiting = l.waiting + 1 })

-- One round of the wait of `exclusive`.
unfoldable pub grant : ℕ → StoreLock → Option StoreLock
grant me l =
    if l.writer || not (none_left l.readers)
    then none
    else some (record l { waiting = l.waiting - 1; writer = true; owner = some me })

-- `_drain_locked`: every deferred connection is closed, the oldest first.
close_all : List ℕ → List ℕ → List ℕ
close_all [] closed = closed
close_all (conn ∷ conns) closed = close_all conns (closed ++ conn ∷ [])

unfoldable pub drain_locked : StoreLock → StoreLock
unfolding close_all
drain_locked l = record l { deferred = []; closed = close_all l.deferred l.closed }

-- The end of a writer section.
unfoldable pub end_exclusive : StoreLock → StoreLock
end_exclusive l = release_exclusive (drain_locked l)

abbrev pub if_got : (StoreLock → StoreLock) → StoreLock → Option StoreLock → StoreLock
if_got rest l none = l
if_got rest l (some held) = rest held

-- The loop of `_drain_deferred`, with no other thread between its steps.
unfoldable pub drain_loop : ℕ → List ℕ → StoreLock → StoreLock
drain_loop me [] l = l
drain_loop me (conn ∷ conns) l =
    if_got
      (λ held.
        drain_loop me conns
          (release_exclusive (record held { deferred = conns; closed = held.closed ++ conn ∷ [] })))
      l (try_exclusive me true l)

unfoldable pub drain_deferred : ℕ → StoreLock → StoreLock
unfolding drain_loop
drain_deferred me l =
    if l.draining || none_left l.deferred
    then l
    else record (drain_loop me l.deferred (record l { draining = true })) { draining = false }

-- `close_from_gc`
unfoldable pub close_from_gc : ℕ → ℕ → StoreLock → StoreLock
close_from_gc me conn l =
    if owned_by me l
    then record l { closed = l.closed ++ conn ∷ [] }
    else elim (try_exclusive me false l) [
      | some held ↦
          drain_deferred me (release_exclusive (record held { closed = held.closed ++ conn ∷ [] }))
      | none ↦ record l { deferred = l.deferred ++ conn ∷ [] }
    ]
