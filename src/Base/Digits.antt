-- ===== src/Base/Digits.antt =====
-- The digits of a number give the number back.
use crm_silmer.Base.Tests.{ltb, Bool-cases}
use crm_silmer.Base.Lists.{length}
use crm_silmer.Base.Decimal.{digits_within}
use Prim.Native.Nat.{ℕ, zero, suc, ◌+◌, ◌*◌, ◌/◌, ◌%◌, ◌≤◌, ◌<◌}
use mathlib.Core.Path.{◌≡◌, refl, sym, ap, ◌∙◌, subst}
use mathlib.Core.Logic.{inl, inr}
use mathlib.Core.Bool.{true, false}
use mathlib.Core.List.{List, [], ◌∷◌}
use native.Mathlib.Omega.{arith}

abbrev pub value : List ℕ → ℕ
value [] = 0
value (d ∷ ds) = d + 10 * value ds

abbrev pub AreDigits : List ℕ → Type 0
AreDigits [] = Unit
AreDigits (d ∷ ds) = (d < 10) × AreDigits ds

digits-last : (fuel n : ℕ) → ltb n 10 ≡ true → digits_within (suc fuel) n ≡ n ∷ []
unfolding digits_within
digits-last fuel n h = rw (digits_within, h) refl

digits-more :
    (fuel n : ℕ)
    → ltb n 10 ≡ false
    → digits_within (suc fuel) n ≡ n % 10 ∷ digits_within fuel (n / 10)
unfolding digits_within
digits-more fuel n h = rw (digits_within, h) refl

pub digits_within-AreDigits : (fuel n : ℕ) → AreDigits (digits_within fuel n)
unfolding digits_within
digits_within-AreDigits zero n = tt
digits_within-AreDigits (suc fuel) n = elim (Bool-cases (ltb n 10)) [
  | inl last ↦ subst AreDigits (sym (digits-last fuel n last)) (ground arith, tt)
  | inr more ↦
      subst AreDigits (sym (digits-more fuel n more))
        (omega arith, digits_within-AreDigits fuel (n / 10))
]

pub value-digits_within : (fuel n : ℕ) → n < fuel → value (digits_within fuel n) ≡ n
value-digits_within zero n h = absurd (ground arith)
value-digits_within (suc fuel) n h = elim (Bool-cases (ltb n 10)) [
  | inl last ↦ ap value (digits-last fuel n last) ∙ omega arith
  | inr more ↦
      let large : 10 ≤ n = ground (arith, more) in
      ap value (digits-more fuel n more)
      ∙ omega (arith, value-digits_within fuel (n / 10) (omega arith))
]

pub length-digits_within : (fuel n : ℕ) → 1 ≤ length (digits_within (suc fuel) n)
length-digits_within fuel n = elim (Bool-cases (ltb n 10)) [
  | inl last ↦ subst (λ ds. 1 ≤ length ds) (sym (digits-last fuel n last)) (omega arith)
  | inr more ↦ subst (λ ds. 1 ≤ length ds) (sym (digits-more fuel n more)) (omega arith)
]
