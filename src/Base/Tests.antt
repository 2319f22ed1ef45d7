-- ===== src/Base/Tests.antt =====
-- Boolean tests on numbers and texts, equality as an interface, and the conditional.
use Prim.Native.Nat.{ℕ, compare, Ordering}
use Prim.Native.String.{String}
use mathlib.Core.Path.{◌≡◌, refl}
use mathlib.Core.Logic.{◌↔◌, ◌⊎◌, inl, inr}
use mathlib.Core.Bool.{Bool, true, false}
use mathlib.Core.Option.{Option, none, some}
use native.Mathlib.Omega.{arith}
use text.Mathlib.Text.{◌==◌ as text_beq}
use text.Mathlib.TextEquality.{eq_iff}

abbrev pub ltb : ℕ → ℕ → Bool
ltb a b = elim (compare a b) [ Ordering.lt ↦ true | _ ↦ false ]

abbrev pub leb : ℕ → ℕ → Bool
leb a b = elim (compare a b) [ Ordering.gt ↦ false | _ ↦ true ]

abbrev pub nat_beq : ℕ → ℕ → Bool
nat_beq a b = elim (compare a b) [ Ordering.eq ↦ true | _ ↦ false ]

pub nat_beq_iff : (a b : ℕ) → (nat_beq a b ≡ true) ↔ (a ≡ b)
nat_beq_iff a b = ground arith

pub record Eq {ℓ} (K : Type ℓ) : Type ℓ where
  pub is_same : K → K → Bool
  pub is_same_iff : (k l : K) → (is_same k l ≡ true) ↔ (k ≡ l)

instance abbrev pub text_eq : Eq String
text_eq = record { is_same = text_beq; is_same_iff = eq_iff }

instance abbrev pub nat_eq : Eq ℕ
nat_eq = record { is_same = nat_beq; is_same_iff = nat_beq_iff }

-- `===` of the source, for every type that has an instance.
infix 50 ◌==◌
abbrev pub ◌==◌ {ℓ} : {K : Type ℓ} ⦃eq : Eq K⦄ → K → K → Bool
◌==◌ ⦃eq⦄ k l = eq.is_same k l

infix 1 if◌then◌else◌
abbrev pub if◌then◌else◌ {ℓ} : {A : Type ℓ} → Bool → A → A → A
if true then x else y = x
if false then x else y = y

abbrev pub is_some {ℓ} : {A : Type ℓ} → Option A → Bool
is_some none = false
is_some (some a) = true

-- Whether a text that may be null is truthy: there, and not empty.
abbrev pub is_filled : Option String → Bool
is_filled none = false
is_filled (some x) = if text_beq x "" then false else true

-- `value === x` where the value may be null.
abbrev pub is_text : Option String → String → Bool
is_text none x = false
is_text (some y) x = text_beq y x

pub Bool-cases : (b : Bool) → (b ≡ true) ⊎ (b ≡ false)
Bool-cases true = inl refl
Bool-cases false = inr refl

pub Option-cases {ℓ} : {A : Type ℓ} (o : Option A) → (o ≡ none) ⊎ ((a : A) × (o ≡ some a))
Option-cases none = inl refl
Option-cases (some a) = inr (a, refl)
