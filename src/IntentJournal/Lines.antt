-- ===== src/IntentJournal/Lines.antt =====
-- The journal file as lines: `split(b"\n")`, `rfind(b"\n")`, truncation, and what they do to a file
-- that is a run of whole lines and a torn tail.
use memora.Prelude.{
  ℕ, zero, suc, ◌+◌, ◌≡◌, refl, ap, ◌∙◌, false, List, [], ◌∷◌, ◌++◌, All, arith, contains, nat_eq,
  length, length-append, if◌then◌else◌, or_false,
}
use mathlib.Core.List.{append_assoc, append-nil}

-- `data.split(sep)[:-1]` from a piece begun as `cur`.
unfoldable pub lines : ℕ → List ℕ → List ℕ → List (List ℕ)
lines sep cur [] = []
lines sep cur (c ∷ cs) =
    let ended = cur ∷ lines sep [] cs in
    let longer = lines sep (cur ++ c ∷ []) cs in if nat_eq c sep then ended else longer

-- `data.rfind(b"\n") + 1`
unfoldable pub keep_length : List ℕ → ℕ
keep_length [] = 0
keep_length (c ∷ cs) =
    let later = keep_length cs in
    if nat_eq later 0 then (if nat_eq c 10 then 1 else 0) else later + 1

abbrev pub take {ℓ} : {A : Type ℓ} → ℕ → List A → List A
take zero xs = []
take (suc n) [] = []
take (suc n) (x ∷ xs) = x ∷ take n xs

-- Lines, each behind its newline.
abbrev pub join : ℕ → List (List ℕ) → List ℕ
join sep [] = []
join sep (l ∷ ls) = l ++ sep ∷ join sep ls

abbrev pub IsLine : ℕ → List ℕ → Type 0
IsLine sep l = contains l sep ≡ false

pub take-append : (xs ys : List ℕ) → take (length xs) (xs ++ ys) ≡ xs
take-append [] ys = refl
take-append (x ∷ xs) ys = ap (λ l. x ∷ l) (take-append xs ys)

lines-line :
    (sep : ℕ) (cur l rest : List ℕ)
    → IsLine sep l
    → lines sep cur (l ++ sep ∷ rest) ≡ (cur ++ l) ∷ lines sep [] rest
unfolding lines
lines-line sep cur [] rest h = rw append-nil (ground arith)
lines-line sep cur (c ∷ l) rest h =
    let (here, there) = or_false (nat_eq c sep) (contains l sep) h in
    rw here (lines-line sep (cur ++ c ∷ []) l rest there ∙ rw append_assoc)

lines-torn : (sep : ℕ) (cur l : List ℕ) → IsLine sep l → lines sep cur l ≡ []
unfolding lines
lines-torn sep cur [] h = refl
lines-torn sep cur (c ∷ l) h =
    let (here, there) = or_false (nat_eq c sep) (contains l sep) h in
    rw here (lines-torn sep (cur ++ c ∷ []) l there)

-- The whole lines of a file are those that were joined; what follows the last newline is dropped.
pub lines-join :
    (sep : ℕ) (ls : List (List ℕ)) (tail : List ℕ)
    → All (IsLine sep) ls
    → IsLine sep tail
    → lines sep [] (join sep ls ++ tail) ≡ ls
lines-join sep [] tail h t = lines-torn sep [] tail t
lines-join sep (l ∷ ls) tail h t =
    rw append_assoc (
      lines-line sep [] l (join sep ls ++ tail) h.0
      ∙ ap (λ r. l ∷ r) (lines-join sep ls tail h.1 t))

pub join-append :
    (sep : ℕ) (ls : List (List ℕ)) (l : List ℕ)
    → join sep (ls ++ l ∷ []) ≡ join sep ls ++ l ++ sep ∷ []
join-append sep [] l = refl
join-append sep (k ∷ ls) l = simp (join-append sep ls l, append_assoc)

keep_length-torn : (l : List ℕ) → IsLine 10 l → keep_length l ≡ 0
unfolding keep_length
keep_length-torn [] h = refl
keep_length-torn (c ∷ l) h = ground (arith, keep_length-torn l)

keep_length-line :
    (l rest : List ℕ) → keep_length (l ++ 10 ∷ rest) ≡ length l + 1 + keep_length rest
unfolding keep_length
keep_length-line [] rest = ground arith
keep_length-line (c ∷ l) rest = ground (arith, keep_length-line l rest)

-- Truncating to the last newline keeps exactly the whole lines.
pub keep_length-join :
    (ls : List (List ℕ)) (tail : List ℕ)
    → IsLine 10 tail
    → keep_length (join 10 ls ++ tail) ≡ length (join 10 ls)
keep_length-join [] tail t = keep_length-torn tail t
keep_length-join (l ∷ ls) tail t = rw append_assoc (
    omega (
      arith,
      keep_length-line l (join 10 ls ++ tail),
      keep_length-join ls tail t,
      length-append l (10 ∷ join 10 ls),
    ))

pub truncate-join :
    (ls : List (List ℕ)) (tail : List ℕ)
    → IsLine 10 tail
    → take (keep_length (join 10 ls ++ tail)) (join 10 ls ++ tail) ≡ join 10 ls
truncate-join ls tail t = rw (keep_length-join ls tail t) (take-append (join 10 ls) tail)

-- A part of a line is a line.
pub IsLine-take : (sep n : ℕ) (l : List ℕ) → IsLine sep l → IsLine sep (take n l)
IsLine-take sep zero l h = refl
IsLine-take sep (suc n) [] h = refl
IsLine-take sep (suc n) (c ∷ l) h = ground (arith, IsLine-take sep n l)
