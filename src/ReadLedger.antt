-- ===== src/ReadLedger.antt =====
-- memora/read_ledger.py: the size-capped file of read telemetry with its one rotation, and the
-- references of a line.
pub mod Bounded
pub mod Queued
mod Tests
use memora.Prelude.{
  ℕ, zero, suc, ◌+◌, ◌-◌, ◌/◌, max, Bool, true, false, not, ◌&&◌, ◌||◌, Option, none, some, List,
  [], ◌∷◌, ◌++◌, if◌then◌else◌, ltb, leb, length,
}
use memora.Prelude.Text.{Text, codes}
use memora.IntentJournal.Lines.{take}

abbrev pub default_max_bytes : ℕ
default_max_bytes = 20971520

abbrev pub min_max_bytes : ℕ
min_max_bytes = 65536

abbrev pub queue_max : ℕ
queue_max = 1000

-- `_max_bytes`; `none` is a text that is no number or a negative one.
unfoldable pub max_bytes : Option ℕ → ℕ
max_bytes none = default_max_bytes
max_bytes (some n) = if ltb 0 n then max n min_max_bytes else default_max_bytes

-- The live file and `<path>.1`, where they exist.
pub record Files : Type 0 where
  pub live : Option (List ℕ)
  pub old : Option (List ℕ)

-- `_size`
abbrev pub size : Option (List ℕ) → ℕ
size none = 0
size (some bytes) = length bytes

abbrev pub bytes_of : Option (List ℕ) → List ℕ
bytes_of none = []
bytes_of (some bytes) = bytes

-- What the system calls of one `_append` answer: whether each unlink, the rename and the open succeed,
-- and after how many bytes the write fails, if it does.
pub record Io : Type 0 where
  pub first_unlink : Bool
  pub renames : Bool
  pub second_unlink : Bool
  pub opens : Bool
  pub write_fails : Option ℕ

-- `os.unlink(old)` where the old file is over its half; `false` is an exception.
abbrev pub cut_old : ℕ → Bool → Files → Bool × Files
cut_old half unlinks f =
    if ltb half (size f.old)
    then (if unlinks then (true, record f { old = none }) else (false, f))
    else (true, f)

-- `os.replace(path, old) if os.path.exists(path)`
abbrev pub replace_live : Option (List ℕ) → Bool → Files → Bool × Files
replace_live none renames f = (true, f)
replace_live (some bytes) true f = (true, record { live = none; old = some bytes })
replace_live (some bytes) false f = (false, f)

abbrev pub and_next : (Files → Bool × Files) → Bool × Files → Bool × Files
and_next k (true, f) = k f
and_next k (false, f) = (false, f)

-- The rotation, when the line does not fit into the live file's half.
abbrev pub rotate : ℕ → List ℕ → Io → Files → Bool × Files
rotate half line io f =
    if ltb half (size f.live + length line)
    then and_next (cut_old half io.second_unlink) (replace_live f.live io.renames f)
    else (true, f)

-- The open and the loop of writes.
abbrev pub write_line : List ℕ → Bool → Option ℕ → Files → Bool × Files
write_line line false fails f = (false, f)
write_line line true none f = (true, record f { live = some (bytes_of f.live ++ line) })
write_line line true (some k) f = (false, record f { live = some (bytes_of f.live ++ take k line) })

-- `_append`
unfoldable pub append : List ℕ → ℕ → Io → Files → Bool × Files
append line cap io f =
    and_next (write_line line io.opens io.write_fails)
      (and_next (rotate (cap / 2) line io) (cut_old (cap / 2) io.first_unlink f))

-- The queue of lines with their caps, the line that the worker has taken and not appended yet, the
-- files, and how many lines were dropped.
pub record Ledger : Type 0 where
  pub queue : List (List ℕ × ℕ)
  pub taken : Option (List ℕ × ℕ)
  pub files : Files
  pub dropped : ℕ

-- `_enqueue`, with a worker that runs; `put_nowait` and the count are one step.
unfoldable pub enqueue : List ℕ → ℕ → Ledger → Ledger
enqueue line cap g =
    if ltb (cap / 2) (length line)
    then record g { dropped = suc g.dropped }
    else if leb queue_max (length g.queue)
    then record g { dropped = suc g.dropped }
    else record g { queue = g.queue ++ (line, cap) ∷ [] }

-- `_q.get()` of a worker that has no line.
abbrev pub get_from : List (List ℕ × ℕ) → Option (List ℕ × ℕ) → Ledger → Ledger
get_from (item ∷ queue) none g = record g { queue = queue; taken = some item }
get_from _ _ g = g

-- `_append` of the line that was taken, whose exceptions the worker drops.
unfoldable pub append_taken : Option (List ℕ × ℕ) → Io → Ledger → Ledger
unfolding append
append_taken none io g = g
append_taken (some (line, cap)) io g = record g {
  taken = none;
  files = (append line cap io g.files).1;
}

-- What the threads do: a read hands in a line, and the worker takes one or appends what it took.
pub data Event : Type 0 where
  hands_in : List ℕ → ℕ → Event
  takes : Event
  appends : Io → Event

unfoldable pub step : Event → Ledger → Ledger
unfolding enqueue append_taken
step (hands_in line cap) g = enqueue line cap g
step takes g = get_from g.queue g.taken g
step (appends io) g = append_taken g.taken io g

unfoldable pub run : List Event → Ledger → Ledger
unfolding step
run [] g = g
run (event ∷ events) g = run events (step event g)

-- A process that starts with these files.
abbrev pub starts : Files → Ledger
starts f = record { queue = []; taken = none; files = f; dropped = 0 }

abbrev pub total : Files → ℕ
total f = size f.live + size f.old

-- An entry of a tool's answer, as `_refs` looks at it: a number, a memory with its id and the text of
-- its last update, such a memory under the key `memory`, or anything else.
pub data Entry : Type 0 where
  number : ℕ → Entry
  memory : Option ℕ → Option Text → Entry
  other : Entry

abbrev pub version : Option Text → Option Text
version none = none
version (some text) = some (take 40 text)

unfoldable pub refs : List Entry → List (ℕ × Option Text)
refs [] = []
refs (number n ∷ entries) = (n, none) ∷ refs entries
refs (memory none updated_at ∷ entries) = refs entries
refs (memory (some i) updated_at ∷ entries) = (i, version updated_at) ∷ refs entries
refs (other ∷ entries) = refs entries
