-- ===== src/WriteGate/Admission.antt =====
-- `enter` and `leave` of memora/write_gate.py: who is admitted, and what a token's life changes.
use memora.Prelude.{
  ℕ, ◌+◌, ◌<◌, String, ◌≡◌, refl, ◌↔◌, Bool, true, false, List, [], ◌∷◌, All, All-mono, contains,
  arith, inl, inr, Bool-cases, ◌≢◌, nat_eq, nat_eq_iff, subst, sym,
}
use memora.WriteGate.{
  GateToken, WriteGate, open_gate, Entered, admitted, refused, state_locked, enter, pop_token,
  leave,
}

abbrev pub is_admitted : Entered → Bool
is_admitted (admitted t g) = true
is_admitted (refused e) = false

-- An ordinary write is admitted exactly when the gate reports the state `open`.
pub enter_iff_open :
    (desc caller : String) (g : WriteGate)
    → (is_admitted (enter desc false caller g) ≡ true) ↔ (state_locked g ≡ open_gate)
unfolding enter
enter_iff_open desc caller g = (ground arith, ground arith)

-- No two tokens in flight have one identity.
abbrev pub HasDistinctIds : List GateToken → Type 0
HasDistinctIds [] = Unit
HasDistinctIds (t ∷ ts) = All (λ u. u.id ≢ t.id) ts × HasDistinctIds ts

-- The gate's book-keeping: every token handed out, in flight or released, has an earlier number, no
-- two in flight are one, and none in flight is released.
pub record IsWellFormed (g : WriteGate) : Type 0 where
  pub flying : All (λ t. t.id < g.next_token) g.in_flight
  pub gone : All (λ i. i < g.next_token) g.released
  pub distinct : HasDistinctIds g.in_flight
  pub live : All (λ t. contains g.released t.id ≡ false) g.in_flight

contains-fresh : (n : ℕ) (is : List ℕ) → All (λ i. i < n) is → contains is n ≡ false
contains-fresh n [] h = refl
contains-fresh n (i ∷ is) h = ground (arith, contains-fresh n is h.1)

All-wider : (n : ℕ) (is : List ℕ) → All (λ i. i < n) is → All (λ i. i < n + 1) is
All-wider n is h = All-mono (λ i p. omega arith) is h

All-tokens-wider :
    (n : ℕ) (ts : List GateToken) → All (λ t. t.id < n) ts → All (λ t. t.id < n + 1) ts
All-tokens-wider n ts h = All-mono (λ t p. omega arith) ts h

All-tokens-ne : (n : ℕ) (ts : List GateToken) → All (λ t. t.id < n) ts → All (λ t. t.id ≢ n) ts
All-tokens-ne n ts h = All-mono (λ t p. omega arith) ts h

-- What an admission does: the next identity, at the head of those in flight.
pub enter_admits :
    (desc caller : String) (exempt : Bool) (g g' : WriteGate) (t : GateToken)
    → enter desc exempt caller g ≡ admitted t g'
    → (t.id ≡ g.next_token)
      × (g' ≡ record g { in_flight = t ∷ g.in_flight; next_token = g.next_token + 1 })
unfolding enter
enter_admits desc caller exempt g g' t e = (ground arith, ground arith)

pub enter-IsWellFormed :
    (desc caller : String) (exempt : Bool) (g g' : WriteGate) (t : GateToken)
    → IsWellFormed g
    → enter desc exempt caller g ≡ admitted t g'
    → IsWellFormed g'
enter-IsWellFormed desc caller exempt g g' t w e =
    let (same, shape) = enter_admits desc caller exempt g g' t e in
    subst IsWellFormed (sym shape) (record {
      flying = (omega arith, All-tokens-wider g.next_token g.in_flight w.flying);
      gone = All-wider g.next_token g.released w.gone;
      distinct = (rw same (All-tokens-ne g.next_token g.in_flight w.flying), w.distinct);
      live = (rw same (contains-fresh g.next_token g.released w.gone), w.live);
    })

pub All-pop_token :
    (P : GateToken → Type 0) (i : ℕ) (ts : List GateToken) → All P ts → All P (pop_token i ts)
unfolding pop_token
All-pop_token P i [] h = tt
All-pop_token P i (t ∷ ts) h = ground (arith, All-pop_token P i ts h.1)

pop_token-distinct :
    (i : ℕ) (ts : List GateToken) → HasDistinctIds ts → HasDistinctIds (pop_token i ts)
unfolding pop_token
pop_token-distinct i [] h = tt
pop_token-distinct i (t ∷ ts) h =
    ground (arith, pop_token-distinct i ts h.1, All-pop_token (λ u. u.id ≢ t.id) i ts h.0)

pop_token-ne :
    (i : ℕ) (ts : List GateToken) → HasDistinctIds ts → All (λ u. u.id ≢ i) (pop_token i ts)
unfolding pop_token
pop_token-ne i [] h = tt
pop_token-ne i (t ∷ ts) h = elim (Bool-cases (nat_eq t.id i)) [
  | inl same ↦ rw same (rw (← (nat_eq_iff t.id i).0 same) h.0)
  | inr other ↦ rw other (ground arith, pop_token-ne i ts h.1)
]

All-live :
    (i : ℕ) (is : List ℕ) (ts : List GateToken)
    → All (λ t. t.id ≢ i) ts
    → All (λ t. contains is t.id ≡ false) ts
    → All (λ t. contains (i ∷ is) t.id ≡ false) ts
All-live i is [] h k = tt
All-live i is (t ∷ ts) h k = (ground arith, All-live i is ts h.1 k.1)

pub leave-IsWellFormed :
    (i : ℕ) (g : WriteGate) → i < g.next_token → IsWellFormed g → IsWellFormed (leave i g)
unfolding leave
leave-IsWellFormed i g h w = elim (Bool-cases (contains g.released i)) [
  | inl old ↦ rw old w
  | inr new ↦ rw new (record {
    flying = All-pop_token (λ t. t.id < g.next_token) i g.in_flight w.flying;
    gone = (h, w.gone);
    distinct = pop_token-distinct i g.in_flight w.distinct;
    live =
        All-live i g.released (pop_token i g.in_flight) (pop_token-ne i g.in_flight w.distinct)
          (All-pop_token (λ t. contains g.released t.id ≡ false) i g.in_flight w.live);
  })
]

-- A second release of a token changes nothing.
pub leave_idem : (i : ℕ) (g : WriteGate) → leave i (leave i g) ≡ leave i g
unfolding leave
leave_idem i g = ground arith

-- A token that was admitted and released leaves the set of writes in flight as it was before.
pub leave-enter :
    (desc caller : String) (exempt : Bool) (g g' : WriteGate) (t : GateToken)
    → IsWellFormed g
    → enter desc exempt caller g ≡ admitted t g'
    → (leave t.id g').in_flight ≡ g.in_flight
unfolding leave
leave-enter desc caller exempt g g' t w e =
    let (same, shape) = enter_admits desc caller exempt g g' t e in
    rw shape (rw same (rw (contains-fresh g.next_token g.released w.gone) (ground arith)))
