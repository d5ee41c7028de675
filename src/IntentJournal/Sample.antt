-- ===== src/IntentJournal/Sample.antt =====
-- A concrete codec for the journal of memora/intent_journal.py, a request, and an empty journal.
use memora.Prelude.{
  ℕ, zero, suc, ◌+◌, ◌-◌, ◌≡◌, refl, sym, ap, ◌∙◌, true, false, Option, some, List, [], ◌∷◌, ◌++◌,
  map, All, arith, contains-append, ℕ_comparable,
}
use memora.Prelude.Text.{Text, codes}
use memora.IntentJournal.Record.{
  Value, boolean, number, negative, text, json, Fields, Parsed, object, Codec, empty_memory,
}
use memora.IntentJournal.Lines.{lines, join, IsLine, lines-join, keep_length}
use mathlib.Core.List.{append-nil}
use memora.IntentJournal.Ops.{Journal, Request, AppendIo, written, repaired, compacted}
use memora.IntentJournal.Replay.{replayed, replay}
use memora.IntentJournal.Opening.{open_journal}

-- Members as texts: the key, a tag and a payload, each shifted past the terminators.
abbrev pub up : Text → Text
up [] = []
up (c ∷ t) = (c + 12) ∷ up t

abbrev pub down : Text → Text
down [] = []
down (c ∷ t) = (c - 12) ∷ down t

abbrev pub payload : Value → List Text
payload (boolean false) = (0 ∷ []) ∷ (0 ∷ []) ∷ []
payload (boolean true) = (0 ∷ []) ∷ (1 ∷ []) ∷ []
payload (number n) = (1 ∷ []) ∷ (n ∷ []) ∷ []
payload (negative n) = (2 ∷ []) ∷ (n ∷ []) ∷ []
payload (text t) = (3 ∷ []) ∷ t ∷ []
payload (json t) = (4 ∷ []) ∷ t ∷ []

abbrev pub value_of : ℕ → Text → Value
value_of zero (zero ∷ p) = boolean false
value_of zero p = boolean true
value_of (suc zero) (n ∷ p) = number n
value_of (suc (suc zero)) (n ∷ p) = negative n
value_of (suc (suc (suc zero))) p = text p
value_of _ p = json p

abbrev pub texts : Fields → List Text
texts [] = []
texts ((k, v) ∷ f) = k ∷ (payload v ++ texts f)

abbrev pub fields_of : List Text → Fields
fields_of (k ∷ (tag ∷ []) ∷ p ∷ rest) = (k, value_of tag p) ∷ fields_of rest
fields_of rest = []

fields_of-texts : (f : Fields) → fields_of (texts f) ≡ f
fields_of-texts [] = refl
fields_of-texts ((k, boolean false) ∷ f) = rw (fields_of-texts f)
fields_of-texts ((k, boolean true) ∷ f) = rw (fields_of-texts f)
fields_of-texts ((k, number n) ∷ f) = rw (fields_of-texts f)
fields_of-texts ((k, negative n) ∷ f) = rw (fields_of-texts f)
fields_of-texts ((k, text t) ∷ f) = rw (fields_of-texts f)
fields_of-texts ((k, json t) ∷ f) = rw (fields_of-texts f)

down-up : (t : Text) → down (up t) ≡ t
down-up [] = refl
down-up (c ∷ t) = cc (sub-add c, down-up t)
  where
    sub-add : (c : ℕ) → (c + 12) - 12 ≡ c
    sub-add c = omega arith

map-down-up : (ts : List Text) → map down (map up ts) ≡ ts
map-down-up [] = refl
map-down-up (t ∷ ts) = cc (down-up t, map-down-up ts)

up-IsLine : (t : Text) → IsLine 11 (up t)
up-IsLine [] = refl
up-IsLine (c ∷ t) = ground (arith, up-IsLine t)

up-no_newline : (t : Text) → IsLine 10 (up t)
up-no_newline [] = refl
up-no_newline (c ∷ t) = ground (arith, up-no_newline t)

map-up-IsLine : (ts : List Text) → All (IsLine 11) (map up ts)
map-up-IsLine [] = tt
map-up-IsLine (t ∷ ts) = (up-IsLine t, map-up-IsLine ts)

pub join-no_newline : (ts : List Text) → IsLine 10 (join 11 (map up ts))
join-no_newline [] = refl
join-no_newline (t ∷ ts) =
    rw (contains-append (up t) (11 ∷ join 11 (map up ts)) 10)
      (ground (arith, up-no_newline t, join-no_newline ts))

abbrev pub write : Fields → List ℕ
write f = join 11 (map up (texts f))

abbrev pub read : List ℕ → Option Parsed
read line = some (object (fields_of (map down (lines 11 [] line))))

pub read-write : (f : Fields) → read (write f) ≡ some (object f)
read-write f =
    ap (λ ls. some (object (fields_of (map down ls))))
      (ap (λ l. lines 11 [] l) (sym (append-nil (write f)))
        ∙ lines-join 11 (map up (texts f)) [] (map-up-IsLine (texts f)) refl)
    ∙ ap (λ ts. some (object (fields_of ts))) (map-down-up (texts f))
    ∙ ap (λ g. some (object g)) (fields_of-texts f)

abbrev pub codec : Codec
codec = record {
  dumps = write;
  loads = read;
  dumps_line = λ f. join-no_newline (texts f);
  loads-dumps = read-write;
}

abbrev pub insert_one : Request
insert_one = record {
  sql = codes "INSERT";
  params_sha256 = codes "ab";
  target = codes "t";
  keys = codes "null";
  post_state = codes "null";
  sent_at = codes "1";
}

abbrev pub all_well : AppendIo
all_well = record {
  inode_ok = true;
  write = written;
  synced = true;
  repair = repaired;
  fstat_ok = true;
  compact = compacted;
  late = written;
  late_repair = repaired;
}

abbrev pub empty_journal : Journal
empty_journal = open_journal codec true []

pub replay_nothing : replay codec [] ≡ replayed empty_memory
unfolding replay lines keep_length
replay_nothing = refl
