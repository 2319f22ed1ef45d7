-- ===== src/Orders/Money.antt =====
-- modules/orders/src/domain/money.js: an amount in the Brazilian format, read and written in cents.
-- `Number` of a run of digits is exact below 2^53, and the sum is over the bound where it is not.
use crm_silmer.Base.{
  leb, text_eq, nat_eq, ◌==◌, if◌then◌else◌, Result, ok, guard, or_throw, ◌>>=◌, ◌>>◌, is_space,
  digits_within, digits, ℕ, suc, ◌+◌, ◌-◌, ◌*◌, ◌/◌, ◌%◌, Bool, ◌&&◌, Option, none, some, List, [],
  ◌∷◌,
}
use crm_silmer.Orders.{Text, OrderError, invalid_amount}
use crm_silmer.Orders.Calendar.{is_digit}

-- `String.prototype.trim`
abbrev pub trim_left : Text → Text
trim_left [] = []
trim_left (c ∷ s) = if is_space c then trim_left s else c ∷ s

abbrev pub unless_last_space : ℕ → Text → Text
unless_last_space c [] = if is_space c then [] else c ∷ []
unless_last_space c (d ∷ t) = c ∷ d ∷ t

abbrev pub trim_right : Text → Text
trim_right [] = []
trim_right (c ∷ s) = unless_last_space c (trim_right s)

-- What may follow the whole amount: nothing, or a comma and one or two digits.
abbrev pub cents_part : Text → Option ℕ
cents_part [] = some 0
cents_part (c ∷ d ∷ []) = if c == 44 && is_digit d then some ((d - 48) * 10) else none
cents_part (c ∷ d ∷ e ∷ []) =
    if c == 44 && is_digit d && is_digit e then some ((d - 48) * 10 + (e - 48)) else none
cents_part s = none

abbrev pub finish : ℕ → Text → Option ℕ
finish n s = elim (cents_part s) [ none ↦ none | some c ↦ some (n * 100 + c) ]

-- Groups of a dot and three digits.
unfoldable pub groups : ℕ → Text → Option ℕ
groups n (p ∷ a ∷ b ∷ c ∷ s) =
    let deeper = groups (n * 1000 + ((a - 48) * 100 + (b - 48) * 10 + (c - 48))) s in
    if p == 46 && is_digit a && is_digit b && is_digit c
    then deeper
    else finish n (p ∷ a ∷ b ∷ c ∷ s)
groups n s = finish n s

-- The digits in front, k of which are read; groups may follow three at most.
unfoldable pub read : ℕ → ℕ → Text → Option ℕ
read n k [] = finish n []
read n k (c ∷ s) =
    let deeper = read (n * 10 + (c - 48)) (suc k) s in
    if is_digit c then deeper else if leb k 3 then groups n (c ∷ s) else finish n (c ∷ s)

-- The cents of a text that `BRL_AMOUNT` matches.
abbrev pub read_amount : Text → Option ℕ
read_amount [] = none
read_amount (c ∷ s) = if is_digit c then read (c - 48) 1 s else none

abbrev pub is_amount : ℕ → Bool
is_amount n = leb 1 n && leb n 9007199254740991

unfoldable pub parse_brl_amount : Text → Result OrderError ℕ
parse_brl_amount text = do
  total ← or_throw (read_amount (trim_right (trim_left text))) invalid_amount
  guard (is_amount total) invalid_amount
  ok total

-- Digits, the last one first, before a text; and with a dot before each three of them but the
-- first.
abbrev pub put_digits : List ℕ → Text → Text
put_digits [] rest = rest
put_digits (d ∷ ds) rest = put_digits ds ((48 + d) ∷ rest)

unfoldable pub put_groups : List ℕ → Text → Text
put_groups (a ∷ b ∷ c ∷ d ∷ ds) rest =
    put_groups (d ∷ ds) (46 ∷ (48 + c) ∷ (48 + b) ∷ (48 + a) ∷ rest)
put_groups ds rest = put_digits ds rest

unfoldable pub format_brl_amount : ℕ → Result OrderError Text
unfolding put_groups digits_within
format_brl_amount cents = do
  guard (is_amount cents) invalid_amount
  ok (
      put_groups (digits (cents / 100))
        (44 ∷ (48 + cents % 100 / 10) ∷ (48 + cents % 100 % 10) ∷ []))
