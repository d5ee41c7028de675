-- ===== src/WriteGate/Tests.antt =====
-- Runs of the write gate, and the theorems at inputs that meet their hypotheses.
use memora.Prelude.{
  String, ◌≡◌, ◌↔◌, refl, true, false, Option, none, some, List, [], ◌∷◌, All, contains, ◌==◌,
  String_comparable, insert, lookup, text_beq, Bool,
}
use memora.Prelude.Text.{Text, codes}
use memora.WriteGate.{
  GateToken, WriteGate, admitted, new_gate, enter, leave, freeze_round, apply_start_state,
  state_locked, open_gate, frozen_unsafe, timed_out,
}
use memora.WriteGate.Admission.{is_admitted, enter_iff_open, leave-enter}
use memora.WriteGate.Drained.{World, Reach, here, next, start, drain, frozen_barrier}
use memora.WriteGate.Registry.{
  gate_for_key, gate_for_key_again, check_registry_aliases, check_registry_aliases-NoAlias, NoAlias,
}

abbrev nothing : String → Bool
nothing name = false

abbrev only_alpha : String → Bool
only_alpha name = name == "alpha"

abbrev plain : WriteGate
plain = record {
  name = some "alpha";
  frozen = false;
  draining = false;
  thaw_generation = 0;
  in_flight = [];
  released = [];
  next_token = 0;
  journal_status = none;
}

abbrev tok : GateToken
tok = record { id = 0; desc = "INSERT" }

abbrev busy : WriteGate
busy = record plain { in_flight = tok ∷ []; next_token = 1 }

plain_enters : enter "INSERT" false "memora.storage" plain ≡ admitted tok busy
unfolding enter
plain_enters = refl

released_none : (leave 0 busy).in_flight ≡ []
released_none =
    leave-enter "INSERT" "memora.storage" false plain busy tok
      (record { flying = tt; gone = tt; distinct = tt; live = tt }) plain_enters

freeze_times_out : freeze_round true busy ≡ (timed_out (tok ∷ []), busy)
unfolding freeze_round
freeze_times_out = refl

-- A store that starts read-only, with the replicator draining.
abbrev closed : WriteGate
closed = record plain { frozen = true }

abbrev draining_world : World
draining_world = record {
  gate = record closed { in_flight = tok ∷ []; next_token = 1 };
  exempt = 0 ∷ [];
  freezers = 0;
}

draining_reached : Reach (start only_alpha nothing "alpha" none) draining_world
unfolding apply_start_state new_gate enter
draining_reached = next here (
    drain (start only_alpha nothing "alpha" none) "INSERT" "memora.replicator" tok
      (record closed { in_flight = tok ∷ []; next_token = 1 }) refl)

frozen_barrier_example : All (λ t. contains (0 ∷ []) t.id ≡ true) (tok ∷ [])
frozen_barrier_example = frozen_barrier only_alpha nothing "alpha" none draining_reached refl

frozen_with_open_intents :
    state_locked (record closed { journal_status = some (7 ∷ [], none) }) ≡ frozen_unsafe
unfolding state_locked
frozen_with_open_intents = refl

same_gate_again :
    (gate_for_key only_alpha nothing "sqlite:/a" (some "alpha") (("sqlite:/a", plain) ∷ [])).0
    ≡ plain
unfolding lookup
same_gate_again =
    gate_for_key_again only_alpha nothing "sqlite:/a" (some "alpha") plain "alpha"
      (("sqlite:/a", plain) ∷ []) refl refl

abbrev at_path : Text → Option Text
at_path t = some t

abbrev two_stores : List (String × Text)
two_stores = ("alpha", codes "d1://acct/x1") ∷ ("beta", codes "/data/b.db") ∷ []

check_registry_aliases-NoAlias_example : NoAlias at_path two_stores
unfolding check_registry_aliases lookup insert text_beq
check_registry_aliases-NoAlias_example = check_registry_aliases-NoAlias at_path two_stores refl

aliased :
    check_registry_aliases at_path (("a", codes "d1://p/x1") ∷ ("b", codes "d1://q/x1") ∷ [])
    ≡ some ("a", "b")
unfolding check_registry_aliases lookup insert text_beq
aliased = refl

enter_iff_open_example :
    (is_admitted (enter "INSERT" false "memora.storage" plain) ≡ true)
    ↔ (state_locked plain ≡ open_gate)
enter_iff_open_example = enter_iff_open "INSERT" "memora.storage" plain
