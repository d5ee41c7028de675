-- ===== src/SessionGuard.antt =====
-- The admission bounds of memora/session_guard.py: the sliding window of new sessions and the ceiling on
-- open ones. Its clock counts whole ticks, of which `window` make the minute.
pub mod Ceiling
pub mod Sublists
pub mod Window
mod Tests
use memora.Prelude.{
  ℕ, zero, suc, ◌+◌, ◌-◌, Bool, true, false, not, ◌&&◌, ◌||◌, Option, none, some, List, [], ◌∷◌,
  ◌++◌, length, ltb, leb, nat_eq, if◌then◌else◌,
}

-- The two settings from the environment, and the ticks of a minute.
pub record Limits : Type 0 where
  pub max_init_per_min : ℕ
  pub max_sessions : ℕ
  pub window : ℕ

-- `_admissions`, `_admission_seq` and `_pending`; a token is its time and its number.
pub record Guard : Type 0 where
  pub admissions : List (ℕ × ℕ)
  pub admission_seq : ℕ
  pub pending : ℕ

abbrev pub new_guard : Guard
new_guard = record { admissions = []; admission_seq = 0; pending = 0 }

-- What `_admit` answers: no slot, the sentinel `_UNLIMITED`, or a token.
pub data Admission : Type 0 where
  window_full : Admission
  unlimited : Admission
  charged : ℕ × ℕ → Admission

-- The loop that drops what is older than a minute, oldest first.
unfoldable pub drop_old : ℕ → ℕ → List (ℕ × ℕ) → List (ℕ × ℕ)
drop_old window now [] = []
drop_old window now ((t, n) ∷ rest) =
    let dropped = drop_old window now rest in
    if ltb (t + window) now then dropped else (t, n) ∷ rest

module _ (l : Limits) where
  unfoldable pub admit : ℕ → Guard → Admission × Guard
  unfolding drop_old
  admit now g =
      let kept = drop_old l.window now g.admissions in
      if leb l.max_init_per_min 0
      then (unlimited, g)
      else if leb l.max_init_per_min (length kept)
      then (window_full, record g { admissions = kept })
      else (
        charged (now, suc g.admission_seq),
        record g {
          admissions = kept ++ (now, suc g.admission_seq) ∷ [];
          admission_seq = suc g.admission_seq;
        },
      )

-- _admissions.remove(token): the first that is equal, if any.
unfoldable pub remove_token : ℕ × ℕ → List (ℕ × ℕ) → List (ℕ × ℕ)
remove_token (t, n) [] = []
remove_token (t, n) ((s, m) ∷ rest) =
    let more = remove_token (t, n) rest in if nat_eq s t && nat_eq m n then rest else (s, m) ∷ more

unfoldable pub refund : Admission → Guard → Guard
unfolding remove_token
refund (charged token) g = record g { admissions = remove_token token g.admissions }
refund _ g = g

-- What a request meets at the two bounds: 503, 429, or it goes on with its token and perhaps a
-- reservation.
pub data Passage : Type 0 where
  capacity_reached : Passage
  too_many : Passage
  goes_on : Admission → Bool → Passage

abbrev pub release : Bool → Guard → Guard
release true g = record g { pending = g.pending - 1 }
release false g = g

-- The section from the count of sessions to the call of `inner`, which has no await; `active` is none
-- without a count. A refusal by `_admit` runs the `finally`.
abbrev pub after_admit : Bool → Admission × Guard → Passage × Guard
after_admit reserved (window_full, g) = (too_many, release reserved g)
after_admit reserved (unlimited, g) = (goes_on unlimited reserved, g)
after_admit reserved (charged token, g) = (goes_on (charged token) reserved, g)

abbrev pub is_reserved : Limits → Option ℕ → Bool
is_reserved l none = false
is_reserved l (some n) = ltb 0 l.max_sessions

abbrev pub at_ceiling : Limits → Option ℕ → Guard → Bool
at_ceiling l none g = false
at_ceiling l (some n) g = ltb 0 l.max_sessions && leb l.max_sessions (n + g.pending)

unfoldable pub pass_bounds : Limits → Option ℕ → ℕ → Guard → Passage × Guard
unfolding admit
pass_bounds l active now g =
    if at_ceiling l active g
    then (capacity_reached, g)
    else let reserved = is_reserved l active in
      after_admit reserved
        (admit l now (if reserved then record g { pending = suc g.pending } else g))

-- `watch` on a response that has a session id: the reservation ends.
unfoldable pub establish : Bool → Guard → Guard
establish reserved g = release reserved g

-- The end of a request that was not established: its slot goes back, and its reservation.
unfoldable pub give_up : Admission → Bool → Guard → Guard
unfolding refund
give_up token reserved g = release reserved (refund token g)
