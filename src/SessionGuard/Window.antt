-- ===== src/SessionGuard/Window.antt =====
-- The sliding window of memora/session_guard.py.
use memora.Prelude.{
  ℕ, ◌+◌, ◌≤◌, Bool, true, false, not, Option, List, [], ◌∷◌, ◌++◌, ◌≡◌, refl, sym, arith, length,
  leb, keep_if, if◌then◌else◌, Bool-cases, inl, inr, subst, suc, length-append,
}
use memora.SessionGuard.{
  Limits, Guard, new_guard, Admission, window_full, unlimited, charged, Passage, goes_on, admit,
  refund, pass_bounds, give_up, drop_old, remove_token, after_admit, release, at_ceiling,
  is_reserved,
}
use memora.SessionGuard.Sublists.{
  Sub, none_left, Sub-length, Sub-snoc, is_token, in_window, recent, recent-All, Sub-drop_old,
  Sub-remove_token, keep_if-append, keep_if_comm,
}

-- The tokens with the one that an admission, or a passage, charges.
abbrev add_token : Admission → List (ℕ × ℕ) → List (ℕ × ℕ)
add_token (charged token) log = log ++ token ∷ []
add_token _ log = log

abbrev pub add_charge : Passage → List (ℕ × ℕ) → List (ℕ × ℕ)
add_charge (goes_on admission reserved) log = add_token admission log
add_charge _ log = log

-- The tokens that are left when one is given back.
abbrev pub without : Admission → List (ℕ × ℕ) → List (ℕ × ℕ)
without (charged token) log = keep_if (λ other. not (is_token token other)) log
without _ log = log

-- What requests and refunds do to the guard, whose clock does not run backwards: beside it the tokens
-- that were charged and not given back, and the latest reading of the clock.
pub data Admits (l : Limits) : Guard → List (ℕ × ℕ) → ℕ → Type 0 where
  fresh : Admits l new_guard [] 0
  requests :
      {g : Guard} {log : List (ℕ × ℕ)} {clock : ℕ} (active : Option ℕ) (now : ℕ)
      → clock ≤ now
      → Admits l g log clock
      → Admits l (pass_bounds l active now g).1 (add_charge (pass_bounds l active now g).0 log) now
  refunds :
      {g : Guard} {log : List (ℕ × ℕ)} {clock : ℕ} (token : Admission) (reserved : Bool)
      → Admits l g log clock
      → Admits l (give_up token reserved g) (without token log) clock

-- The guard's window has every token of the last minute, whatever the time is from a reading on.
abbrev Covers : ℕ → ℕ → List (ℕ × ℕ) → Guard → Type 0
Covers window clock log g = (now : ℕ) → clock ≤ now → Sub (recent window now log) g.admissions

-- The window has at most the allowed admissions.
abbrev Fits : Limits → Guard → Type 0
Fits l g = length g.admissions ≤ l.max_init_per_min

length-drop_old : (window now : ℕ) (xs : List (ℕ × ℕ)) → length (drop_old window now xs) ≤ length xs
unfolding drop_old
length-drop_old window now [] = omega arith
length-drop_old window now ((t, n) ∷ rest) = ground (arith, length-drop_old window now rest)

admit-Fits : (l : Limits) (now : ℕ) (g : Guard) → Fits l g → Fits l (admit l now g).1
unfolding admit
admit-Fits l now g h = ground (
  arith,
  h,
  length-drop_old l.window now g.admissions,
  length-append (drop_old l.window now g.admissions) ((now, suc g.admission_seq) ∷ []),
)

admit-Covers :
    (l : Limits) (now : ℕ) (g : Guard) (log : List (ℕ × ℕ))
    → Covers l.window now log g
    → Covers l.window now (add_token (admit l now g).0 log) (admit l now g).1
unfolding admit
admit-Covers l now g log h now' later = elim (Bool-cases (leb l.max_init_per_min 0)) [
  | inl free ↦ rw free (h now' later)
  | inr limited ↦
      let kept = drop_old l.window now g.admissions in
      let covered : Sub (recent l.window now' log) kept =
        Sub-drop_old l.window now (recent-All l.window now now' log later) (h now' later) in
      elim (Bool-cases (leb l.max_init_per_min (length kept))) [
        | inl full ↦ rw (limited, full) covered
        | inr room ↦
            rw (limited, room)
              (subst (λ xs. Sub xs (kept ++ (now, suc g.admission_seq) ∷ []))
                (sym
                  (keep_if-append (in_window l.window now') log ((now, suc g.admission_seq) ∷ [])))
                (Sub-snoc (leb now' (now + l.window)) (now, suc g.admission_seq) covered))
      ]
]

after_admit-Covers :
    (window clock : ℕ) (log : List (ℕ × ℕ)) (reserved : Bool) (r : Admission × Guard)
    → Covers window clock (add_token r.0 log) r.1
    → Covers window clock (add_charge (after_admit reserved r).0 log) (after_admit reserved r).1
after_admit-Covers window clock log true (window_full, g) h = h
after_admit-Covers window clock log false (window_full, g) h = h
after_admit-Covers window clock log reserved (unlimited, g) h = h
after_admit-Covers window clock log reserved (charged token, g) h = h

after_admit-Fits :
    (l : Limits) (reserved : Bool) (r : Admission × Guard)
    → Fits l r.1
    → Fits l (after_admit reserved r).1
after_admit-Fits l true (window_full, g) h = h
after_admit-Fits l false (window_full, g) h = h
after_admit-Fits l reserved (unlimited, g) h = h
after_admit-Fits l reserved (charged token, g) h = h

-- A reservation leaves the window alone.
reserve : Bool → Guard → Guard
reserve b g = if b then record g { pending = suc g.pending } else g

reserve_window : (b : Bool) (g : Guard) → (reserve b g).admissions ≡ g.admissions
unfolding reserve
reserve_window true g = refl
reserve_window false g = refl

pass_bounds-Keeps :
    (l : Limits) (active : Option ℕ) (now : ℕ) (g : Guard) (log : List (ℕ × ℕ))
    → Fits l g × Covers l.window now log g
    → Fits l (pass_bounds l active now g).1
      × Covers l.window now
          (add_charge (pass_bounds l active now g).0 log)
          (pass_bounds l active now g).1
unfolding pass_bounds reserve
pass_bounds-Keeps l active now g log (fits, covers) = elim (Bool-cases (at_ceiling l active g)) [
  | inl full ↦ rw full (fits, covers)
  | inr free ↦
      let reserved = is_reserved l active in
      let g' = reserve reserved g in
      let same = reserve_window reserved g in
      let fits' : Fits l g' = rw same fits in
      let covers' : Covers l.window now log g' = λ now' later.
        subst (λ xs. Sub (recent l.window now' log) xs) (sym same) (covers now' later) in
      rw free (
        after_admit-Fits l reserved (admit l now g') (admit-Fits l now g' fits'),
        after_admit-Covers l.window now log reserved (admit l now g')
            (admit-Covers l now g' log covers'),
      )
]

length-remove_token :
    (token : ℕ × ℕ) (xs : List (ℕ × ℕ)) → length (remove_token token xs) ≤ length xs
unfolding remove_token
length-remove_token (t, n) [] = omega arith
length-remove_token (t, n) ((s, m) ∷ rest) = ground (arith, length-remove_token (t, n) rest)

release-Keeps :
    (l : Limits) (window clock : ℕ) (log : List (ℕ × ℕ)) (reserved : Bool) (g : Guard)
    → Fits l g × Covers window clock log g
    → Fits l (release reserved g) × Covers window clock log (release reserved g)
release-Keeps l window clock log true g h = h
release-Keeps l window clock log false g h = h

refund-Keeps :
    (l : Limits) (window clock : ℕ) (log : List (ℕ × ℕ)) (token : Admission) (g : Guard)
    → Fits l g × Covers window clock log g
    → Fits l (refund token g) × Covers window clock (without token log) (refund token g)
unfolding refund
refund-Keeps l window clock log window_full g h = h
refund-Keeps l window clock log unlimited g h = h
refund-Keeps l window clock log (charged token) g (fits, covers) = (
  omega (arith, fits, length-remove_token token g.admissions),
  λ now later.
      subst (λ xs. Sub xs (remove_token token g.admissions))
        (keep_if_comm (λ other. not (is_token token other)) (in_window window now) log)
        (Sub-remove_token token (covers now later)),
)

Admits-Keeps :
    (l : Limits) (g : Guard) (log : List (ℕ × ℕ)) (clock : ℕ)
    → Admits l g log clock
    → Fits l g × Covers l.window clock log g
unfolding give_up
Admits-Keeps l _ _ _ fresh = (omega arith, λ now later. none_left)
Admits-Keeps l _ _ _ (requests {g = g} {log = log} {clock = clock} active now later r) =
    let (fits, covers) = Admits-Keeps l g log clock r in
    pass_bounds-Keeps l active now g log
      (fits, λ now' after. covers now' (omega (arith, later, after)))
Admits-Keeps l _ _ _ (refunds {g = g} {log = log} {clock = clock} token reserved r) =
    release-Keeps l l.window clock (without token log) reserved (refund token g)
      (refund-Keeps l l.window clock log token g (Admits-Keeps l g log clock r))

-- The rate holds: however requests and refunds follow each other on a clock that does not run backwards,
-- of the tokens that were charged and not given back, at most the allowed number stem from the last
-- minute, at the latest reading of the clock and at any time from there on.
pub admissions_bounded :
    (l : Limits) (g : Guard) (log : List (ℕ × ℕ)) (clock now : ℕ)
    → Admits l g log clock
    → clock ≤ now
    → length (recent l.window now log) ≤ l.max_init_per_min
admissions_bounded l g log clock now r later =
    let (fits, covers) = Admits-Keeps l g log clock r in
    omega (arith, fits, Sub-length (covers now later))
