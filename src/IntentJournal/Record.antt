-- ===== src/IntentJournal/Record.antt =====
-- `_validate_record` and `_apply` of memora/intent_journal.py: the records of the journal file.
use memora.Prelude.{
  ℕ, ◌+◌, Bool, true, false, Option, none, some, List, [], max, leb, if◌then◌else◌, ◌==◌,
  Text_comparable, ℕ_comparable, lookup, insert, remove, text_beq, contains, ◌≡◌,
}
use memora.Prelude.Text.{Text, codes}

-- A member's value: JSON numbers that are whole, the Booleans (which Python counts as numbers),
-- text, and any other value by its JSON text. `negative n` is -(n + 1).
pub data Value : Type 0 where
  boolean : Bool → Value
  number negative : ℕ → Value
  text json : Text → Value

-- The members of a JSON object, in order.
abbrev pub Fields : Type 0
Fields = List (Text × Value)

-- A parsed line: an object, or some other JSON value.
pub data Parsed : Type 0 where
  object : Fields → Parsed
  other : Parsed

-- What is documented of `json.dumps` and `json.loads`, with UTF-8: no newline byte is written (10),
-- and what was written is read back.
pub record Codec : Type 0 where
  pub dumps : Fields → List ℕ
  pub loads : List ℕ → Option Parsed
  pub dumps_line : (f : Fields) → contains (dumps f) 10 ≡ false
  pub loads-dumps : (f : Fields) → loads (dumps f) ≡ some (object f)

-- A record that passed `_validate_record`.
pub data Entry : Type 0 where
  meta : ℕ → Entry
  intent : ℕ → Fields → Entry
  resolved : ℕ → Entry

abbrev positive : ℕ → Option ℕ
positive n = if leb 1 n then some n else none

-- `isinstance(v, int) and v >= 1`: `True` is the number 1.
abbrev positive_int : Option Value → Option ℕ
positive_int (some (number n)) = positive n
positive_int (some (boolean true)) = some 1
positive_int v = none

-- The same with Booleans refused.
abbrev positive_id : Option Value → Option ℕ
positive_id (some (number n)) = positive n
positive_id v = none

abbrev is_text : Option Value → Bool
is_text (some (text t)) = true
is_text v = false

abbrev text_is : Option Value → Text → Bool
text_is (some (text t)) s = t == s
text_is v s = false

intent_of : Fields → Option ℕ → Option Entry
intent_of rec none = none
intent_of rec (some i) = if is_text (lookup (codes "sql") rec) then some (intent i rec) else none

resolved_of : Fields → Option ℕ → Option Entry
resolved_of rec none = none
resolved_of rec (some i) =
    if is_text (lookup (codes "outcome") rec) then some (resolved i) else none

meta_of : Option ℕ → Option Entry
meta_of none = none
meta_of (some n) = some (meta n)

-- `_validate_record`; `none` is a malformed record.
unfoldable pub validate_record : Parsed → Option Entry
unfolding intent_of resolved_of meta_of lookup text_beq
validate_record other = none
validate_record (object rec) =
    let kind = lookup (codes "type") rec in
    if text_is kind (codes "meta")
    then meta_of (positive_int (lookup (codes "next_id") rec))
    else if text_is kind (codes "intent")
    then intent_of rec (positive_id (lookup (codes "id") rec))
    else if text_is kind (codes "resolved")
    then resolved_of rec (positive_id (lookup (codes "id") rec))
    else none

-- `_open` and `_next_id`.
pub record Memory : Type 0 where
  pub open_set : List (ℕ × Fields)
  pub next_id : ℕ

unfoldable pub empty_memory : Memory
empty_memory = record { open_set = []; next_id = 1 }

-- `_apply`
unfoldable pub apply : Entry → Memory → Memory
apply (meta n) m = record m { next_id = max m.next_id n }
apply (intent i rec) m = record {
  open_set = insert i rec m.open_set;
  next_id = max m.next_id (i + 1);
}
apply (resolved i) m = record m { open_set = remove i m.open_set }
