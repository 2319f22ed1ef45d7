-- ===== src/Orders/Sizes.antt =====
-- modules/orders/src/domain/sizes.js: the sizes that a customer typed, read as the grade of an
-- item. `fold` (Unicode decomposition, without marks, in upper case) is an argument, a text is its
-- code points, and `Number` of a run of digits is exact below 2^53 and over the bound where it is
-- not.
use crm_silmer.Base.{
  leb, text_eq, nat_eq, ◌==◌, if◌then◌else◌, all, is_space, digits, ℕ, Bool, true, false, ◌&&◌,
  ◌||◌, Option, none, some, List, [], ◌∷◌, ◌++◌,
}
use crm_silmer.Orders.{Text, codes}
use crm_silmer.Orders.Calendar.{is_digit, read_digits}

pub record Line : Type 0 where
  pub quantidade : ℕ
  pub tamanho : Text

pub data Token : Type 0 where
  size : (name : Text) → Token
  amount : (n : ℕ) → Token
  break join : Token

unfoldable pub same_codes : Text → Text → Bool
same_codes [] [] = true
same_codes [] (d ∷ t) = false
same_codes (c ∷ s) [] = false
same_codes (c ∷ s) (d ∷ t) = c == d && same_codes s t

-- `SIZE_NAMES`: the folded spelling and the printed one.
abbrev pub size_names : List (Text × Text)
size_names =
    (codes "PP", codes "PP")
    ∷ (codes "P", codes "P")
    ∷ (codes "M", codes "M")
    ∷ (codes "G", codes "G")
    ∷ (codes "GG", codes "GG")
    ∷ (codes "XG", codes "XG")
    ∷ (codes "XGG", codes "XGG")
    ∷ (codes "EG", codes "EG")
    ∷ (codes "EGG", codes "EGG")
    ∷ (codes "XX", codes "XX")
    ∷ (codes "JEGAO", codes "JEGÃO")
    ∷ (codes "G1", codes "G1")
    ∷ (codes "G2", codes "G2")
    ∷ (codes "G3", codes "G3")
    ∷ (codes "G4", codes "G4")
    ∷ (codes "G5", codes "G5")
    ∷ []

abbrev pub is_empty : Text → Bool
is_empty [] = true
is_empty (c ∷ s) = false

unfoldable pub name_in : Text → List (Text × Text) → Option Text
name_in w [] = none
name_in w ((folded, printed) ∷ m) = if same_codes folded w then some printed else name_in w m

abbrev pub size_name : Text → Option Text
size_name w = name_in w size_names

abbrev pub is_count : ℕ → Bool
is_count n = leb 1 n && leb n 9007199254740991

-- `count`, of digits.
unfoldable pub count_of_digits : Text → Option ℕ
unfolding read_digits is_digit
count_of_digits digits = elim (read_digits 0 digits) [
  | none ↦ none
  | some n ↦ if is_count n then some n else none
]

abbrev pub is_capital : ℕ → Bool
is_capital c = leb b'A' c && leb c b'Z'

-- The longest start of a text whose characters pass a test, and the rest.
unfoldable pub span : (ℕ → Bool) → Text → Text × Text
span p [] = ([], [])
span p (c ∷ s) = if p c then (c ∷ (span p s).0, (span p s).1) else ([], c ∷ s)

abbrev pub count_then_size : Option ℕ → Option Text → Option (List Token)
count_then_size (some n) (some s) = some (amount n ∷ size s ∷ [])
count_then_size _ _ = none

abbrev pub size_then_count : Option Text → Option ℕ → Option (List Token)
size_then_count (some s) (some n) = some (size s ∷ amount n ∷ [])
size_then_count _ _ = none

abbrev pub just_count : Option ℕ → Option (List Token)
just_count none = none
just_count (some n) = some (amount n ∷ [])

abbrev pub counted : Text × Text → Option (List Token)
counted (digits, []) = just_count (count_of_digits digits)
counted (digits, c ∷ s) = count_then_size (count_of_digits digits) (size_name (c ∷ s))

abbrev pub sized : Text × Text → Option (List Token)
sized ([], number) = none
sized (c ∷ letters, []) = none
sized (c ∷ letters, d ∷ number) =
    if all is_digit (d ∷ number)
    then size_then_count (size_name (c ∷ letters)) (count_of_digits (d ∷ number))
    else none

-- A word that is no size: a count, or a count and a size without a space. `[A-Z]+[1-5]?` holds of
-- every size, so that the names alone decide.
unfoldable pub read_glued : Text → Option (List Token)
unfolding span is_digit count_of_digits name_in same_codes
read_glued w =
    if is_empty (span is_digit w).0 then sized (span is_capital w) else counted (span is_digit w)

-- `readWord`
unfoldable pub read_word : Text → Option (List Token)
unfolding read_glued name_in same_codes
read_word w = elim (size_name w) [ some s ↦ some (size s ∷ []) | none ↦ read_glued w ]

abbrev pub is_word : ℕ → Bool
is_word c = is_capital c || is_digit c

-- A comma, a semicolon, a slash, a plus, a full stop or a line feed.
abbrev pub is_break : ℕ → Bool
is_break c = c == 44 || c == 59 || c == 47 || c == 43 || c == 46 || c == 10

-- A colon, an equals sign or a hyphen.
abbrev pub is_join : ℕ → Bool
is_join c = c == 58 || c == 61 || c == 45

abbrev pub in_front : Option (List Token) → Option (List Token) → Option (List Token)
in_front none ts = none
in_front (some us) none = none
in_front (some us) (some ts) = some (us ++ ts)

-- The tokens of a word that is over; the word "E" is a break.
abbrev pub tokens_of : Text → Option (List Token)
tokens_of [] = some []
tokens_of (c ∷ w) =
    let word = read_word (c ∷ w) in if c == b'E' && is_empty w then some (break ∷ []) else word

-- The token of a character between words; none for any other.
abbrev pub separator : ℕ → Option (List Token)
separator c =
    if is_break c
    then some (break ∷ [])
    else if is_join c
    then some (join ∷ [])
    else if is_space c
    then some []
    else none

-- `tokenize`, of a folded text, with the start of a word.
unfoldable pub tokenize : Text → Text → Option (List Token)
unfolding read_word is_space is_digit
tokenize word [] = tokens_of word
tokenize word (c ∷ s) =
    let longer = tokenize (word ++ c ∷ []) s in
    let next = in_front (tokens_of word) (in_front (separator c) (tokenize [] s)) in
    if is_word c then longer else next
