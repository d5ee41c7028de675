-- ===== src/SessionGuard/Tests.antt =====
-- Runs of memora/session_guard.py's bounds, and its theorems applied to them.
use memora.Prelude.{[], ◌∷◌, none, ◌≤◌, some, ◌≡◌, refl, arith, length}
use memora.SessionGuard.{Limits, Guard, new_guard, capacity_reached, pass_bounds, admit, drop_old}
use memora.SessionGuard.Ceiling.{Runs, at_start, arrives, arrive, sessions_bounded}
use memora.SessionGuard.Sublists.{recent}
use memora.SessionGuard.Window.{Admits, fresh, requests, admissions_bounded}

abbrev one_session : Limits
one_session = record { max_init_per_min = 1; max_sessions = 1; window = 60 }

test_full : (pass_bounds one_session (some 1) 5 new_guard).0 ≡ capacity_reached
unfolding pass_bounds
test_full = refl

test_window :
    (pass_bounds one_session (some 0) 5 (pass_bounds one_session (some 0) 4 new_guard).1).0
    ≡ capacity_reached
unfolding pass_bounds admit drop_old
test_window = refl

after_first :
    Runs one_session
      (arrive one_session 4 (record { guard = new_guard; active = 0; waiting = 0; created = 0 }))
after_first = arrives 4 at_start

sessions_bounded_example :
    (arrive one_session 4
      (record { guard = new_guard; active = 0; waiting = 0; created = 0 })).active
    ≤ 1
sessions_bounded_example = sessions_bounded one_session _ (omega arith) after_first

-- No ceiling on sessions, and one admission a minute: the second request comes after it.
abbrev one_a_minute : Limits
one_a_minute = record { max_init_per_min = 1; max_sessions = 0; window = 60 }

abbrev after_two : Guard
after_two = record { admissions = (70, 2) ∷ []; admission_seq = 2; pending = 0 }

two_admitted : Admits one_a_minute after_two ((4, 1) ∷ (70, 2) ∷ []) 70
unfolding pass_bounds admit drop_old
two_admitted = requests none 70 (omega arith) (requests none 4 (omega arith) fresh)

admissions_bounded_example : length (recent 60 71 ((4, 1) ∷ (70, 2) ∷ [])) ≤ 1
admissions_bounded_example =
    admissions_bounded one_a_minute after_two ((4, 1) ∷ (70, 2) ∷ []) 70 71 two_admitted
      (omega arith)
