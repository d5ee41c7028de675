-- ===== src/Prelude/Tests.antt =====
-- Boolean tests on the native numbers and on texts, the conditional, and case lemmas.
use Prim.Native.Nat.{ℕ, compare, Ordering}
use Prim.Native.String.{String}
use text.Mathlib.Text.{◌==◌ as str_eq}
use text.Mathlib.TextEquality.{eq_iff}
use mathlib.Core.Path.{◌≡◌, refl}
use mathlib.Core.Logic.{◌↔◌, ◌⊎◌, inl, inr}
use mathlib.Core.Bool.{Bool, true, false, ◌&&◌, ◌||◌}
use mathlib.Core.Option.{Option, none, some}
use mathlib.Core.List.{List, [], ◌∷◌}
use native.Mathlib.Omega.{arith}

abbrev pub ltb : ℕ → ℕ → Bool
ltb a b = elim (compare a b) [ Ordering.lt ↦ true | _ ↦ false ]

abbrev pub leb : ℕ → ℕ → Bool
leb a b = elim (compare a b) [ Ordering.gt ↦ false | _ ↦ true ]

abbrev pub nat_eq : ℕ → ℕ → Bool
nat_eq a b = elim (compare a b) [ Ordering.eq ↦ true | _ ↦ false ]

infix 1 if◌then◌else◌
abbrev pub if◌then◌else◌ {ℓ} : {A : Type ℓ} → Bool → A → A → A
if true then x else y = x
if false then x else y = y

-- Types whose values the program compares with `==`.
pub record Comparable {ℓ} (A : Type ℓ) : Type ℓ where
  pub same : (x y : A) → Bool
  pub same_iff : (x y : A) → (same x y ≡ true) ↔ (x ≡ y)

infix 50 ◌==◌
abbrev pub ◌==◌ {ℓ} : {A : Type ℓ} ⦃e : Comparable A⦄ → A → A → Bool
◌==◌ ⦃e⦄ = e.same

pub nat_eq_iff : (a b : ℕ) → (nat_eq a b ≡ true) ↔ (a ≡ b)
nat_eq_iff a b = ground arith

pub nat_eq_refl : (a : ℕ) → nat_eq a a ≡ true
nat_eq_refl a = ground arith

instance abbrev pub ℕ_comparable : Comparable ℕ
ℕ_comparable = record { same = nat_eq; same_iff = nat_eq_iff }

instance abbrev pub String_comparable : Comparable String
String_comparable = record { same = str_eq; same_iff = eq_iff }

unfoldable pub text_beq : List ℕ → List ℕ → Bool
text_beq [] [] = true
text_beq [] (y ∷ ys) = false
text_beq (x ∷ xs) [] = false
text_beq (x ∷ xs) (y ∷ ys) = nat_eq x y && text_beq xs ys

text_beq_sound : (s t : List ℕ) → text_beq s t ≡ true → s ≡ t
unfolding text_beq
text_beq_sound [] [] h = refl
text_beq_sound [] (y ∷ ys) h = ground arith
text_beq_sound (x ∷ xs) [] h = ground arith
text_beq_sound (x ∷ xs) (y ∷ ys) h = ground (arith, text_beq_sound xs ys)

text_beq_self : (s : List ℕ) → text_beq s s ≡ true
unfolding text_beq
text_beq_self [] = refl
text_beq_self (x ∷ xs) = ground (arith, text_beq_self xs)

text_beq_complete : (s t : List ℕ) → s ≡ t → text_beq s t ≡ true
text_beq_complete s t e = mathlib.Core.Path.subst (λ u. text_beq s u ≡ true) e (text_beq_self s)

pub text_beq_iff : (s t : List ℕ) → (text_beq s t ≡ true) ↔ (s ≡ t)
text_beq_iff s t = (text_beq_sound s t, text_beq_complete s t)

instance abbrev pub Text_comparable : Comparable (List ℕ)
Text_comparable = record { same = text_beq; same_iff = text_beq_iff }

-- To split on a computed value and keep the equation.
pub Bool-cases : (b : Bool) → (b ≡ true) ⊎ (b ≡ false)
Bool-cases true = inl refl
Bool-cases false = inr refl

pub Option-cases {ℓ} : {A : Type ℓ} (o : Option A) → (o ≡ none) ⊎ ((a : A) × (o ≡ some a))
Option-cases none = inl refl
Option-cases (some a) = inr (a, refl)

pub and_true : (a b : Bool) → (a && b) ≡ true → (a ≡ true) × (b ≡ true)
and_true a b h = ground arith

pub or_false : (a b : Bool) → (a || b) ≡ false → (a ≡ false) × (b ≡ false)
or_false a b h = ground arith
