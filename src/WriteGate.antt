-- ===== src/WriteGate.antt =====
-- memora/write_gate.py: the per-store write admission gate, as explicit state passing.
-- A token's identity `id(tok)` is a number that the gate has not yet handed out.
pub mod Admission
pub mod Freeze
pub mod Drained
pub mod Registry
mod Tests
use memora.Prelude.{
  ℕ, ◌+◌, String, Bool, true, false, ◌||◌, Option, none, some, List, [], ◌∷◌, length, contains,
  if◌then◌else◌, nat_eq, Comparable, ◌==◌, String_comparable,
}

-- `_GateToken`, without its clock and thread.
pub record GateToken : Type 0 where
  pub id : ℕ
  pub desc : String

-- `_WriteGate`. `released` holds the ids of the tokens whose `released` flag is set;
-- `journal_status` is the store's journal as the callback reports it, `none` without a callback.
pub record WriteGate : Type 0 where
  pub name : Option String
  pub frozen : Bool
  pub draining : Bool
  pub thaw_generation : ℕ
  pub in_flight : List GateToken
  pub released : List ℕ
  pub next_token : ℕ
  pub journal_status : Option (List ℕ × Option String)

pub data GateState : Type 0 where
  open_gate draining frozen frozen_unsafe : GateState

pub data EnterError : Type 0 where
  store_read_only : GateState → EnterError
  journal_unusable : String → EnterError
  permission_error : String → EnterError

pub data Entered : Type 0 where
  admitted : GateToken → WriteGate → Entered
  refused : EnterError → Entered

-- `_EXEMPT_CALLERS`
abbrev pub exempt_caller : String → Bool
exempt_caller caller = caller == "memora.replicator"

unfoldable pub new_gate : Option String → Option (List ℕ × Option String) → WriteGate
new_gate name journal = record {
  name = name;
  frozen = false;
  draining = false;
  thaw_generation = 0;
  in_flight = [];
  released = [];
  next_token = 0;
  journal_status = journal;
}

abbrev broken_of : Option (List ℕ × Option String) → Option String
broken_of none = none
broken_of (some (ids, broken)) = broken

abbrev intents_of : Option (List ℕ × Option String) → List ℕ
intents_of none = []
intents_of (some (ids, broken)) = ids

unfoldable pub journal_broken : WriteGate → Option String
journal_broken g = broken_of g.journal_status

unfoldable pub open_intents : WriteGate → List ℕ
open_intents g = intents_of g.journal_status

-- The truth of `_journal_broken()`: `none` and the empty text are false.
abbrev truthy : Option String → Bool
truthy none = false
truthy (some s) = if s == "" then false else true

abbrev some_intents : List ℕ → Bool
some_intents [] = false
some_intents (i ∷ is) = true

unfoldable pub state_locked : WriteGate → GateState
unfolding journal_broken open_intents
state_locked g =
    if truthy (journal_broken g)
    then frozen_unsafe
    else if g.draining
    then draining
    else if g.frozen
    then (if some_intents (open_intents g) || truthy (journal_broken g)
        then frozen_unsafe
        else frozen)
    else open_gate

admit : String → WriteGate → Entered
admit desc g =
    let tok : GateToken = record { id = g.next_token; desc = desc } in
    admitted tok (record g { in_flight = tok ∷ g.in_flight; next_token = g.next_token + 1 })

-- The message of a broken journal; the text is there whenever `truthy` holds.
abbrev reason_of : Option String → String
reason_of none = ""
reason_of (some s) = s

-- `enter`; `caller` is the module name of the calling frame.
unfoldable pub enter : String → Bool → String → WriteGate → Entered
unfolding admit state_locked
enter desc exempt caller g =
    if exempt
    then (if exempt_caller caller then admit desc g else refused (permission_error caller))
    else if g.frozen || g.draining
    then refused (store_read_only (state_locked g))
    else if truthy (journal_broken g)
    then refused (journal_unusable (reason_of (journal_broken g)))
    else admit desc g

-- `_in_flight.pop(id, None)`
pub pop_token : ℕ → List GateToken → List GateToken
pop_token i [] = []
pop_token i (t ∷ ts) = if nat_eq t.id i then ts else t ∷ pop_token i ts

unfoldable pub leave : ℕ → WriteGate → WriteGate
unfolding pop_token
leave i g =
    if contains g.released i
    then g
    else record g { released = i ∷ g.released; in_flight = pop_token i g.in_flight }

pub data FreezeStep : Type 0 where
  done : FreezeStep
  waiting : FreezeStep
  timed_out : List GateToken → FreezeStep

abbrev no_token : List GateToken → Bool
no_token [] = true
no_token (t ∷ ts) = false

-- One round of the loop in `freeze`, from the test of the loop to the wait; `expired` says that
-- the deadline has passed.
unfoldable pub freeze_round : Bool → WriteGate → FreezeStep × WriteGate
freeze_round expired g =
    if no_token g.in_flight
    then (done, record g { draining = false; frozen = true })
    else if expired
    then (timed_out g.in_flight, record g { draining = false })
    else (waiting, g)

-- `freeze` up to its first wait.
unfoldable pub freeze_begin : Bool → WriteGate → FreezeStep × WriteGate
unfolding freeze_round
freeze_begin expired g =
    if g.frozen then (done, g) else freeze_round expired (record g { draining = true })

unfoldable pub freeze_at_start : WriteGate → WriteGate
freeze_at_start g = record g { frozen = true }

unfoldable pub thaw : WriteGate → WriteGate
thaw g = record g { frozen = false; draining = false; thaw_generation = g.thaw_generation + 1 }

-- `_apply_start_state`: the name is listed in MEMORA_READONLY_DBS or its freeze file exists.
unfoldable pub apply_start_state :
    (String → Bool) → (String → Bool) → String → WriteGate → WriteGate
unfolding freeze_at_start
apply_start_state readonly freeze_file name g =
    if readonly name || freeze_file name then freeze_at_start g else g
