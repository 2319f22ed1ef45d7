-- ===== src/Orders/Lines.antt =====
-- modules/orders/src/domain/sizes.js: the lines of a grade, from the tokens of a text, the entries
-- of an object or those of a list.
-- Whether the first of a pair was its size.
use crm_silmer.Base.{
  ltb, if◌then◌else◌, length, any, all, is_space, digits_within, digits, value, ℕ, zero, suc, Bool,
  true, false, not, ◌||◌, Option, none, some, List, [], ◌∷◌, ◌++◌,
}
use crm_silmer.Orders.{Text}
use crm_silmer.Orders.Calendar.{is_digit}
use crm_silmer.Orders.Money.{trim_left, trim_right, put_digits}
use crm_silmer.Orders.Sizes.{
  Line, Token, size, amount, break, join, same_codes, is_empty, name_in, size_name, is_count,
  count_of_digits, tokenize,
}

pub data Kind : Type 0 where
  size_first amount_first : Kind

abbrev pub drop_join : List Token → List Token
drop_join (join ∷ ts) = ts
drop_join ts = ts

unfoldable pub skip_breaks : List Token → List Token
skip_breaks [] = []
skip_breaks (break ∷ ts) = skip_breaks ts
skip_breaks (t ∷ ts) = t ∷ ts

-- A size and a count, in either order, and what follows them.
abbrev pub read_pair : Token → List Token → Option (Line × Kind × List Token)
read_pair (size s) (amount n ∷ ts) = some (record { quantidade = n; tamanho = s }, size_first, ts)
read_pair (amount n) (size s ∷ ts) = some (record { quantidade = n; tamanho = s }, amount_first, ts)
read_pair _ _ = none

abbrev pub same_kind : Kind → Kind → Bool
same_kind size_first size_first = true
same_kind amount_first amount_first = true
same_kind _ _ = false

abbrev pub is_order : Option Kind → Kind → Bool
is_order none k = true
is_order (some o) k = same_kind o k

-- The loop of `pair` may run out of fuel.
pub data Paired : Type 0 where
  out_of_fuel : Paired
  paired : Option (List Line) → Paired

unfoldable pub pair_within : ℕ → Option Kind → List Line → List Token → Paired
unfolding skip_breaks
pair_within zero order lines ts = out_of_fuel
pair_within (suc fuel) order lines [] = paired (some lines)
pair_within (suc fuel) order lines (first ∷ ts) = elim (read_pair first (drop_join ts)) [
  | none ↦ paired none
  | some (line, kind, rest) ↦ elim (is_order order kind) [
    | false ↦ paired none
    | true ↦ pair_within fuel (some kind) (lines ++ line ∷ []) (skip_breaks rest)
  ]
]

abbrev pub lines_of : Paired → Option (List Line)
lines_of out_of_fuel = none
lines_of (paired lines) = lines

-- `pair`: each round takes two tokens.
unfoldable pub pair : List Token → Option (List Line)
unfolding pair_within skip_breaks
pair ts = lines_of (pair_within (suc (length ts)) none [] (skip_breaks ts))

unfoldable pub has_repeats : List Line → Bool
unfolding same_codes
has_repeats [] = false
has_repeats (l ∷ ls) =
    let rest = has_repeats ls in any (λ (m : Line). same_codes l.tamanho m.tamanho) ls || rest

-- `withoutRepeats`
abbrev pub without_repeats : List Line → Option (List Line)
without_repeats ls = if has_repeats ls then none else some ls

abbrev pub filled : Option (List Line) → Option (List Line)
filled none = none
filled (some []) = none
filled (some (l ∷ ls)) = without_repeats (l ∷ ls)

abbrev pub paired_tokens : Option (List Token) → Option (List Line)
paired_tokens none = none
paired_tokens (some ts) = pair ts

-- `parseSizes`, of a text.
unfoldable pub parse_sizes_text : (fold : Text → Text) → Text → Option (List Line)
unfolding tokenize pair has_repeats is_space
parse_sizes_text fold value =
    let lines = paired_tokens (tokenize [] (fold value)) in
    if all is_space value || ltb 500 (length value) then none else filled lines

-- A value of an object or of a list: a whole number that is not negative, another finite number
-- with what `String` makes of it, a text, or anything else.
pub data Raw : Type 0 where
  whole : ℕ → Raw
  numeric : (shown : Text) → Raw
  typed : Text → Raw
  other : Raw

-- `/^\s*\d+\s*$/`
abbrev pub trimmed : Text → Text
trimmed s = trim_right (trim_left s)

-- `countOf`
unfoldable pub count_of : Raw → Option ℕ
unfolding count_of_digits is_space is_digit
count_of (whole n) = if is_count n then some n else none
count_of (typed s) =
    if is_empty (trimmed s) || not (all is_digit (trimmed s))
    then none
    else count_of_digits (trimmed s)
count_of _ = none

abbrev pub line_of : Option Text → Option ℕ → Option Line
line_of (some s) (some n) = some (record { quantidade = n; tamanho = s })
line_of _ _ = none

abbrev pub line_before : Option Line → Option (List Line) → Option (List Line)
line_before (some l) (some ls) = some (l ∷ ls)
line_before _ _ = none

-- The entries of an object, as `Object.entries` lists them.
unfoldable pub object_lines : (fold : Text → Text) → List (Text × Raw) → Option (List Line)
unfolding count_of name_in same_codes is_space
object_lines fold [] = some []
object_lines fold ((key, raw) ∷ entries) =
    line_before (line_of (size_name (trimmed (fold key))) (count_of raw))
      (object_lines fold entries)

-- `parseSizeObject`
unfoldable pub parse_size_object : (fold : Text → Text) → List (Text × Raw) → Option (List Line)
unfolding object_lines has_repeats
parse_size_object fold entries = filled (object_lines fold entries)

-- An entry of a list, `??` done: null where a field is missing; `none` where the entry is no plain
-- object.
abbrev pub Entry : Type 0
Entry = Option (Option Raw × Option Raw)

abbrev pub listed_size : Option Raw → Text
listed_size none = []
listed_size (some (whole n)) = put_digits (digits n) []
listed_size (some (numeric s)) = s
listed_size (some (typed s)) = trimmed s
listed_size (some other) = []

abbrev pub listed_count : Option Raw → Option ℕ
listed_count (some (whole n)) = if is_count n then some n else none
listed_count _ = none

abbrev pub listed_line : Entry → Option Line
listed_line none = none
listed_line (some (tamanho, quantidade)) =
    if is_empty (listed_size tamanho)
    then none
    else line_of (some (listed_size tamanho)) (listed_count quantidade)

unfoldable pub list_lines : List Entry → Option (List Line)
unfolding digits_within
list_lines [] = some []
list_lines (e ∷ es) = line_before (listed_line e) (list_lines es)

-- `parseSizeList`
unfoldable pub parse_size_list : List Entry → Option (List Line)
unfolding list_lines
parse_size_list [] = none
parse_size_list (e ∷ es) = list_lines (e ∷ es)

pub data Value : Type 0 where
  text : Text → Value
  array : List Entry → Value
  object : List (Text × Raw) → Value
  no_sizes : Value

-- `parseSizes`
unfoldable pub parse_sizes : (fold : Text → Text) → Value → Option (List Line)
parse_sizes fold (text s) = parse_sizes_text fold s
parse_sizes fold (array es) = parse_size_list es
parse_sizes fold (object entries) = parse_size_object fold entries
parse_sizes fold no_sizes = none
