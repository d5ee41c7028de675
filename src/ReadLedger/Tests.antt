-- ===== src/ReadLedger/Tests.antt =====
-- Lines of memora/read_ledger.py, and the theorem applied to them.
use memora.Prelude.{arith, length, ◌≡◌, ◌≤◌, refl, max, true, none, some, List, [], ◌∷◌}
use memora.ReadLedger.{
  append_taken, Files, Io, Event, hands_in, takes, appends, run, step, enqueue, starts, queue_max,
  append, total, max_bytes, refs, number, memory, other,
}
use memora.ReadLedger.Bounded.{append-cap}
use memora.ReadLedger.Queued.{run-total}

abbrev healthy : Io
healthy = record {
  first_unlink = true;
  renames = true;
  second_unlink = true;
  opens = true;
  write_fails = none;
}

abbrev nothing_yet : Files
nothing_yet = record { live = none; old = none }

-- Three lines of three bytes under a cap of eight: the second and the third rotate. The worker takes
-- the first before the second comes, and a line of five bytes is dropped.
abbrev three_lines : List Event
three_lines =
    hands_in (1 ∷ 2 ∷ 3 ∷ []) 8
    ∷ takes
    ∷ hands_in (4 ∷ 5 ∷ 6 ∷ []) 8
    ∷ takes
    ∷ appends healthy
    ∷ takes
    ∷ hands_in (1 ∷ 1 ∷ 1 ∷ 1 ∷ 1 ∷ []) 8
    ∷ appends (record healthy { write_fails = some 2 })
    ∷ hands_in (7 ∷ 8 ∷ 9 ∷ []) 8
    ∷ takes
    ∷ appends healthy
    ∷ []

test_rotation : run three_lines (starts nothing_yet) ≡ record {
  queue = [];
  taken = none;
  files = record { live = some (7 ∷ 8 ∷ 9 ∷ []); old = some (4 ∷ 5 ∷ []) };
  dropped = 1;
}
unfolding run step enqueue append_taken append
test_rotation = refl

test_max_bytes : max_bytes (some 100) ≡ 65536
unfolding max_bytes
test_max_bytes = refl

test_refs :
    refs (number 4 ∷ other ∷ memory none none ∷ memory (some 7) none ∷ [])
    ≡ (4, none) ∷ (7, none) ∷ []
unfolding refs
test_refs = refl

run-total_example :
    (total (run three_lines (starts nothing_yet)).files ≤ max (total nothing_yet) 8)
    × (length (run three_lines (starts nothing_yet)).queue ≤ queue_max)
run-total_example = run-total 8 three_lines nothing_yet (
  omega arith,
  (tt, (omega arith, (tt, (tt, (tt, (omega arith, (tt, (omega arith, (tt, (tt, tt)))))))))),
)

-- Files of twelve bytes under a cap that was lowered to eight.
abbrev too_large : Files
too_large = record {
  live = some (1 ∷ 2 ∷ 3 ∷ 4 ∷ 5 ∷ 6 ∷ []);
  old = some (1 ∷ 2 ∷ 3 ∷ 4 ∷ 5 ∷ 6 ∷ []);
}

append-cap_example : total (append (7 ∷ 8 ∷ []) 8 healthy too_large).1 ≤ 8
unfolding append
append-cap_example = append-cap (7 ∷ 8 ∷ []) 8 healthy too_large (omega arith) refl
