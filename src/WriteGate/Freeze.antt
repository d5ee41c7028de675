-- ===== src/WriteGate/Freeze.antt =====
-- `freeze` of memora/write_gate.py: what it keeps, and when the gate comes out frozen.
use memora.Prelude.{◌≡◌, Bool, true, [], arith, ◌⊎◌}
use memora.WriteGate.{WriteGate, FreezeStep, freeze_round, freeze_begin}

-- What a freeze leaves alone: the writes in flight and the tokens' book-keeping.
pub record KeepsTokens (g g' : WriteGate) : Type 0 where
  pub in_flight : g'.in_flight ≡ g.in_flight
  pub released : g'.released ≡ g.released
  pub next_token : g'.next_token ≡ g.next_token

pub freeze_round-KeepsTokens :
    (expired : Bool) (g g' : WriteGate) (s : FreezeStep)
    → freeze_round expired g ≡ (s, g')
    → KeepsTokens g g'
unfolding freeze_round
freeze_round-KeepsTokens expired g g' s e = record {
  in_flight = ground arith;
  released = ground arith;
  next_token = ground arith;
}

pub freeze_begin-KeepsTokens :
    (expired : Bool) (g g' : WriteGate) (s : FreezeStep)
    → freeze_begin expired g ≡ (s, g')
    → KeepsTokens g g'
unfolding freeze_begin
freeze_begin-KeepsTokens expired g g' s e = record {
  in_flight = ground arith;
  released = ground arith;
  next_token = ground arith;
}

-- A gate that comes out frozen was frozen, or has no write in flight.
pub freeze_round-frozen :
    (expired : Bool) (g g' : WriteGate) (s : FreezeStep)
    → freeze_round expired g ≡ (s, g')
    → g'.frozen ≡ true
    → (g.frozen ≡ true) ⊎ (g'.in_flight ≡ [])
unfolding freeze_round
freeze_round-frozen expired g g' s e h = ground arith

pub freeze_begin-frozen :
    (expired : Bool) (g g' : WriteGate) (s : FreezeStep)
    → freeze_begin expired g ≡ (s, g')
    → g'.frozen ≡ true
    → (g.frozen ≡ true) ⊎ (g'.in_flight ≡ [])
unfolding freeze_begin
freeze_begin-frozen expired g g' s e h = ground arith
