-- ===== src/ReadLedger/Bounded.antt =====
-- The sizes of the files of memora/read_ledger.py.
use memora.Prelude.{
  ℕ, zero, suc, ◌+◌, ◌/◌, ◌≤◌, ◌≡◌, refl, ap, Bool, true, false, Option, none, some, List, [], ◌∷◌,
  if◌then◌else◌, ltb, length, length-append, arith, Bool-cases, inl, inr,
}
use memora.IntentJournal.Lines.{take}
use memora.ReadLedger.{
  Files, Io, size, bytes_of, cut_old, replace_live, and_next, rotate, write_line, append, step,
  total,
}

length-take-le : (k : ℕ) (xs : List ℕ) → length (take k xs) ≤ length xs
length-take-le zero xs = omega arith
length-take-le (suc k) [] = omega arith
length-take-le (suc k) (x ∷ xs) = omega (arith, length-take-le k xs)

-- A stage keeps the total below the bound and, if the next one runs, leaves what that needs.
abbrev Fits : ℕ → (Files → Type 0) → Bool × Files → Type 0
Fits bound P (true, f) = (total f ≤ bound) × P f
Fits bound P (false, f) = total f ≤ bound

and_next-Fits :
    (bound : ℕ) (P Q : Files → Type 0) (k : Files → Bool × Files) (r : Bool × Files)
    → ((f : Files) → total f ≤ bound → P f → Fits bound Q (k f))
    → Fits bound P r
    → Fits bound Q (and_next k r)
and_next-Fits bound P Q k (true, f) step h = step f h.0 h.1
and_next-Fits bound P Q k (false, f) step h = h

size_bytes : (o : Option (List ℕ)) → length (bytes_of o) ≡ size o
size_bytes none = refl
size_bytes (some bytes) = refl

module _ (bound half : ℕ) where
  cut_old-Fits :
      (unlinks : Bool) (f : Files)
      → total f ≤ bound
      → Fits bound (λ g. (size g.old ≤ half) × (size g.live ≡ size f.live)) (cut_old half unlinks f)
  cut_old-Fits unlinks f h = elim (Bool-cases (ltb half (size f.old))) [
    | inr small ↦ simp small (h, (ground arith, refl))
    | inl large ↦ simp large (go unlinks)
  ]
    where
      go :
          (u : Bool)
          → Fits bound
              (λ g. (size g.old ≤ half) × (size g.live ≡ size f.live))
              (if u then (true, record f { old = none }) else (false, f))
      go true = (omega arith, (omega arith, refl))
      go false = h

  replace_live-Fits :
      (live : Option (List ℕ)) (renames : Bool) (f : Files)
      → f.live ≡ live
      → total f ≤ bound
      → Fits bound (λ g. size g.live ≡ 0) (replace_live live renames f)
  replace_live-Fits none renames f e h = (h, ap size e)
  replace_live-Fits (some bytes) true f e h = (let n = ap size e in omega arith, refl)
  replace_live-Fits (some bytes) false f e h = h

  rotate-Fits :
      (line : List ℕ) (io : Io) (f : Files)
      → length line ≤ half
      → total f ≤ bound
      → size f.old ≤ half
      → Fits bound
          (λ g. (size g.old ≤ half) × (size g.live + length line ≤ half))
          (rotate half line io f)
  rotate-Fits line io f fits h low = elim (Bool-cases (ltb half (size f.live + length line))) [
    | inr room ↦ simp room (h, (low, ground arith))
    | inl full ↦ simp full (
        and_next-Fits bound (λ g. size g.live ≡ 0)
          (λ g. (size g.old ≤ half) × (size g.live + length line ≤ half))
          (cut_old half io.second_unlink) (replace_live f.live io.renames f)
          (λ g t empty.
            refit (cut_old half io.second_unlink g) g empty (cut_old-Fits io.second_unlink g t))
          (replace_live-Fits f.live io.renames f refl h))
  ]
    where
      refit :
          (r : Bool × Files) (g : Files)
          → size g.live ≡ 0
          → Fits bound (λ g'. (size g'.old ≤ half) × (size g'.live ≡ size g.live)) r
          → Fits bound (λ g'. (size g'.old ≤ half) × (size g'.live + length line ≤ half)) r
      refit (true, g') g empty k = (k.0, (k.1.0, omega (arith, k.1.1)))
      refit (false, g') g empty k = k

  write_line-Fits :
      (line : List ℕ) (opens : Bool) (fails : Option ℕ) (f : Files)
      → half + half ≤ bound
      → total f ≤ bound
      → (size f.old ≤ half) × (size f.live + length line ≤ half)
      → total (write_line line opens fails f).1 ≤ bound
  write_line-Fits line false fails f wide h room = h
  write_line-Fits line true none f wide h room =
      omega (arith, room.0, room.1, length-append (bytes_of f.live) line, size_bytes f.live)
  write_line-Fits line true (some k) f wide h room = omega (
    arith,
    room.0,
    room.1,
    length-append (bytes_of f.live) (take k line),
    length-take-le k line,
    size_bytes f.live,
  )

-- An item of the queue: its line fits into half of its cap, and its cap is below the bound.
abbrev pub IsFitting : ℕ → List ℕ × ℕ → Type 0
IsFitting bound (line, cap) = (length line ≤ cap / 2) × (cap ≤ bound)

-- What the stages before the write leave it.
abbrev HasRoom : ℕ → List ℕ → Files → Type 0
HasRoom half line g = (size g.old ≤ half) × (size g.live + length line ≤ half)

rotated-HasRoom :
    (bound half : ℕ) (line : List ℕ) (io : Io) (f : Files)
    → length line ≤ half
    → total f ≤ bound
    → Fits bound
        (HasRoom half line)
        (and_next (rotate half line io) (cut_old half io.first_unlink f))
rotated-HasRoom bound half line io f fits h =
    and_next-Fits bound (λ g. (size g.old ≤ half) × (size g.live ≡ size f.live)) (HasRoom half line)
      (rotate half line io) (cut_old half io.first_unlink f)
      (λ g t low. rotate-Fits bound half line io g fits t low.0)
      (cut_old-Fits bound half io.first_unlink f h)

pub append-total :
    (bound : ℕ) (line : List ℕ) (cap : ℕ) (io : Io) (f : Files)
    → IsFitting bound (line, cap)
    → total f ≤ bound
    → total (append line cap io f).1 ≤ bound
unfolding append
append-total bound line cap io f (fits, wide) h =
    written (and_next (rotate (cap / 2) line io) (cut_old (cap / 2) io.first_unlink f))
      (rotated-HasRoom bound (cap / 2) line io f fits h)
  where
    written :
        (r : Bool × Files)
        → Fits bound (HasRoom (cap / 2) line) r
        → total (and_next (write_line line io.opens io.write_fails) r).1 ≤ bound
    written (true, g) k =
        write_line-Fits bound (cap / 2) line io.opens io.write_fails g (omega arith) k.0 k.1
    written (false, g) k = k

-- An append of a line that fits into half the cap, and that succeeds, brings the files under the cap,
-- whatever they had before: a cap that was lowered holds from that line on.
pub append-cap :
    (line : List ℕ) (cap : ℕ) (io : Io) (f : Files)
    → length line ≤ cap / 2
    → (append line cap io f).0 ≡ true
    → total (append line cap io f).1 ≤ cap
unfolding append
append-cap line cap io f fits done =
    ended (and_next (rotate (cap / 2) line io) (cut_old (cap / 2) io.first_unlink f)) io.opens
      io.write_fails (rotated-HasRoom (total f) (cap / 2) line io f fits (omega arith)) done
  where
    ended :
        (r : Bool × Files) (opens : Bool) (fails : Option ℕ)
        → Fits (total f) (HasRoom (cap / 2) line) r
        → (and_next (write_line line opens fails) r).0 ≡ true
        → total (and_next (write_line line opens fails) r).1 ≤ cap
    ended (true, g) true none k e =
        omega (arith, k.1.0, k.1.1, length-append (bytes_of g.live) line, size_bytes g.live)
    ended (true, g) true (some n) k e = cc
    ended (true, g) false fails k e = cc
    ended (false, g) opens fails k e = cc
