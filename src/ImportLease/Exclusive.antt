-- ===== src/ImportLease/Exclusive.antt =====
-- Two imports of memora/storage.py and the lease.
use memora.Prelude.{
  ℕ, ◌+◌, ◌≤◌, ◌<◌, ◌≡◌, ◌≢◌, ◌⊎◌, refl, sym, ap, ◌∙◌, Bool, true, false, ◌&&◌, none, some, List,
  [], ◌∷◌, arith, if◌then◌else◌, nat_eq, nat_eq_iff, Bool-cases, inl, inr, subst,
}
use memora.ImportLease.{
  Lease, Row, lease_seconds, extend, Attempt, error, checks, renews, renews_in_part, Fenced, proven,
  lost, fence, owns, renewed, acquire, read_back, held,
}
use memora.ImportLease.Keeps.{Keeps, over_if_other, takes-Keeps, inserts-Keeps, Run, Run-Keeps}

-- The row is this import's.
abbrev Owned : ℕ → Row → Type 0
Owned me none = ⊥
Owned me (some l) = l.owner ≡ me

owns-Owned : (me now : ℕ) (row : Row) → owns me now row ≡ true → Owned me row
owns-Owned me now none h = cc h
owns-Owned me now (some l) h = ground (arith, nat_eq_iff l.owner me)

-- A proof of ownership is about the row as the import found it.
extend-Owned :
    (me now until now' : ℕ) (row : Row)
    → owns me now' (extend me now until row) ≡ true
    → Owned me row
unfolding extend
extend-Owned me now until now' none h = cc h
extend-Owned me now until now' (some l) h = elim (Bool-cases (nat_eq l.owner me)) [
  | inl own ↦ (nat_eq_iff l.owner me).0 own
  | inr other ↦ cc (simp other at h)
]

-- An UPDATE of a renewal changes no owner.
Owned-extend : (me now until : ℕ) (row : Row) → Owned me (extend me now until row) → Owned me row
unfolding extend
Owned-extend me now until none o = o
Owned-extend me now until (some l) o = ground arith

extend-keeps_owner :
    (me now until : ℕ) (row : Row) → Owned me row → Owned me (extend me now until row)
unfolding extend
extend-keeps_owner me now until none o = o
extend-keeps_owner me now until (some l) o = ground arith

if_proven : (t : Bool) → (if t then proven else lost) ≡ proven → t ≡ true
if_proven true h = refl
if_proven false h = cc h

fence-Owned :
    (me : ℕ) (tries : List Attempt) (row : Row) → (fence me tries row).0 ≡ proven → Owned me row
unfolding fence
fence-Owned me [] row h = cc h
fence-Owned me (error ∷ more) row h = fence-Owned me more row h
fence-Owned me (checks now ∷ more) row h = owns-Owned me now row (if_proven _ h)
fence-Owned me (renews_in_part from now ∷ more) row h =
    Owned-extend me now (from + lease_seconds) row
      (fence-Owned me more (extend me now (from + lease_seconds) row) h)
fence-Owned me (renews from now now' ∷ more) row h =
    extend-Owned me now (from + lease_seconds) now' row (
      ground (
        arith,
        if_proven (
            renewed me (from + lease_seconds) (extend me now (from + lease_seconds) row)
            && owns me now' (extend me now (from + lease_seconds) row)),
      ))

acquire-Keeps :
    (a u me now clock : ℕ) (row : Row)
    → now ≤ clock
    → Keeps a u clock row
    → Keeps a u clock (acquire me now row).1
unfolding acquire
acquire-Keeps a u me now clock row h k =
    takes-Keeps a u me now (now + lease_seconds) clock _ h
      (inserts-Keeps a u me (now + lease_seconds) clock row k)

read_back-Owned : (me t : ℕ) (row : Row) → read_back me row ≡ held t → Owned me row
unfolding read_back
read_back-Owned me t none h = cc h
read_back-Owned me t (some l) h = ground (arith, nat_eq_iff l.owner me)

over_if_Owned :
    (a u b clock : ℕ) (row : Row) → a ≢ b → Owned b row → Keeps a u clock row → u < clock
over_if_Owned a u b clock none h o k = absurd o
over_if_Owned a u b clock (some l) h o k = over_if_other a u clock l (λ e. h (sym e ∙ o)) k

-- The row after a proof of ownership is this import's.
fence-keeps_owner :
    (me : ℕ) (tries : List Attempt) (row : Row) → Owned me row → Owned me (fence me tries row).1
unfolding fence
fence-keeps_owner me [] row o = o
fence-keeps_owner me (error ∷ more) row o = fence-keeps_owner me more row o
fence-keeps_owner me (checks now ∷ more) row o = o
fence-keeps_owner me (renews_in_part from now ∷ more) row o =
    fence-keeps_owner me more (extend me now (from + lease_seconds) row)
      (extend-keeps_owner me now (from + lease_seconds) row o)
fence-keeps_owner me (renews from now now' ∷ more) row o =
    extend-keeps_owner me now (from + lease_seconds) row o

proven_owner :
    (a : ℕ) (tries : List Attempt) (row : Row) (l : Lease)
    → fence a tries row ≡ (proven, some l)
    → l.owner ≡ a
proven_owner a tries row l h =
    subst (Owned a) (ap (λ (r : Fenced × Row). r.1) h)
      (fence-keeps_owner a tries row (fence-Owned a tries row (ap (λ (r : Fenced × Row). r.0) h)))

-- Two imports are not at work at once. When an import has proven that it owns the lease until some
-- time, and does not release it, then whatever other imports and sweeps do, with stale readings of the
-- clock, another import that proves that it owns the lease, or acquires it, does so later than that
-- time.
pub lease_exclusive :
    (a b clock later : ℕ) (tries tries' : List Attempt) (row row' : Row) (l : Lease) (now t : ℕ)
    → a ≢ b
    → fence a tries row ≡ (proven, some l)
    → Run a clock (some l) later row'
    → now ≤ later
    → ((fence b tries' row').0 ≡ proven) ⊎ ((acquire b now row').0 ≡ held t)
    → l.lease_until < later
unfolding acquire
lease_exclusive a b clock later tries tries' row row' l now t apart first run h second =
    let mine = proven_owner a tries row l first in
    let k : Keeps a l.lease_until later row' =
      Run-Keeps l.lease_until run (inr (mine, omega arith)) in
    elim second [
      | inl fenced ↦
          over_if_Owned a l.lease_until b later row' apart (fence-Owned b tries' row' fenced) k
      | inr acquired ↦
          over_if_Owned a l.lease_until b later (acquire b now row').1 apart
            (read_back-Owned b t _ acquired) (acquire-Keeps a l.lease_until b now later row' h k)
    ]
