-- ===== src/Base/Decimal.antt =====
-- A whole number in decimal digits, as `String` and `toString` write it.
use Prim.Native.String.{String, ◌++◌}
use crm_silmer.Base.Tests.{ltb}
use crm_silmer.Base.Lists.{get_elem?}
use Prim.Native.Nat.{ℕ, zero, suc, ◌/◌, ◌%◌}
use mathlib.Core.Bool.{true, false}
use mathlib.Core.Option.{some, none}
use mathlib.Core.List.{List, [], ◌∷◌}

-- The digits, the last one first. A number has no more digits than its own value and one.
unfoldable pub digits_within : ℕ → ℕ → List ℕ
digits_within zero n = []
digits_within (suc fuel) n = elim (ltb n 10) [
  | true ↦ n ∷ []
  | false ↦ n % 10 ∷ digits_within fuel (n / 10)
]

abbrev pub digits : ℕ → List ℕ
digits n = digits_within (suc n) n

abbrev decimal_digits : List String
decimal_digits = "0" ∷ "1" ∷ "2" ∷ "3" ∷ "4" ∷ "5" ∷ "6" ∷ "7" ∷ "8" ∷ "9" ∷ []

abbrev pub digit : ℕ → String
digit n = elim (get_elem? decimal_digits n) [ none ↦ "" | some d ↦ d ]

-- Digits, the last one first, before a text.
abbrev pub written : List ℕ → String → String
written [] rest = rest
written (d ∷ ds) rest = written ds (digit d ++ rest)

unfoldable pub decimal : ℕ → String
unfolding digits_within
decimal n = written (digits n) ""
