-- ===== src/Base/Json.antt =====
-- `JSON.stringify` of texts and of arrays of texts. A text of the model has no lone surrogates.
use Prim.Native.String.{String, ◌++◌}
use Prim.Native.Char.{code}
use crm_silmer.Base.Tests.{ltb, text_eq, nat_eq, ◌==◌, if◌then◌else◌}
use crm_silmer.Base.Lists.{get_elem?}
use Prim.Native.Nat.{ℕ, ◌/◌, ◌%◌}
use mathlib.Core.Option.{some, none}
use mathlib.Core.List.{List, [], ◌∷◌}

abbrev hex_digits : List String
hex_digits =
    "0" ∷ "1" ∷ "2" ∷ "3" ∷ "4" ∷ "5" ∷ "6" ∷ "7" ∷ "8" ∷ "9" ∷ "a" ∷ "b" ∷ "c" ∷ "d" ∷ "e" ∷ "f"
    ∷ []

hex_digit : ℕ → String
hex_digit n = elim (get_elem? hex_digits n) [ none ↦ "" | some d ↦ d ]

-- One character of a quoted text.
escaped : ℕ → String → String
unfolding hex_digit
escaped c plain =
    if c == 34
    then "\\\""
    else if c == 92
    then "\\\\"
    else if c == 8
    then "\\b"
    else if c == 12
    then "\\f"
    else if c == 10
    then "\\n"
    else if c == 13
    then "\\r"
    else if c == 9
    then "\\t"
    else if ltb c 32
    then "\\u00" ++ (hex_digit (c / 16) ++ hex_digit (c % 16))
    else plain

unfoldable pub escape : String → String
unfolding escaped
escape String.[] = String.[]
escape (String.◌∷◌ c s) = escaped (code c) (String.◌∷◌ c String.[]) ++ escape s

unfoldable pub quote : String → String
unfolding escape
quote s = "\"" ++ (escape s ++ "\"")

abbrev rest_of_array : List String → String
rest_of_array [] = "]"
rest_of_array (x ∷ xs) = "," ++ (x ++ rest_of_array xs)

-- `[a,b,…]` of texts that are JSON already.
abbrev pub json_array : List String → String
json_array [] = "[]"
json_array (x ∷ xs) = "[" ++ (x ++ rest_of_array xs)
