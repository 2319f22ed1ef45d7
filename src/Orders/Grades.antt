-- ===== src/Orders/Grades.antt =====
-- The grades that the sizes of a customer give.
use crm_silmer.Base.{
  ltb, Bool-cases, Option-cases, length, all, All, All-append, is_space, ℕ, zero, suc, ◌≡◌, refl,
  sym, ap, ◌∙◌, subst, ◌⊎◌, inl, inr, Bool, true, false, not, ◌||◌, Option, none, some, List, [],
  ◌∷◌, ◌++◌, arith,
}
use crm_silmer.Orders.{Text}
use crm_silmer.Orders.Calendar.{is_digit}
use crm_silmer.Orders.Sizes.{
  Line, Token, size, amount, break, join, is_empty, size_name, is_count, count_of_digits, tokenize,
}
use crm_silmer.Orders.Pairs.{round-unpaired, round-mixed, round-paired}
use crm_silmer.Orders.Tokens.{
  some-injective, is_printed, IsGood, count_of_digits-is_count, size_name-printed, if-either,
  tokenize-IsGood,
}
use crm_silmer.Orders.Lines.{
  Kind, drop_join, skip_breaks, read_pair, is_order, paired, pair_within, lines_of, pair,
  has_repeats, filled, paired_tokens, parse_sizes_text, Raw, whole, numeric, typed, other, trimmed,
  count_of, line_of, line_before, object_lines, parse_size_object, Value, text, array, object,
  no_sizes, parse_sizes,
}

abbrev pub is_nil : List Line → Bool
is_nil [] = true
is_nil (l ∷ ls) = false

abbrev pub IsLine : Line → Type 0
IsLine l = (is_printed l.tamanho ≡ true) × (is_count l.quantidade ≡ true)

-- Lines with a printed size and a positive safe count each, and no size twice.
pub record IsGrade (lines : List Line) : Type 0 where
  pub fine : All IsLine lines
  pub distinct : has_repeats lines ≡ false
  pub filled : is_nil lines ≡ false

-- Pairs of good tokens.
drop_join-IsGood : (ts : List Token) → All IsGood ts → All IsGood (drop_join ts)
drop_join-IsGood [] h = tt
drop_join-IsGood (join ∷ ts) h = h.1
drop_join-IsGood (break ∷ ts) h = h
drop_join-IsGood (size s ∷ ts) h = h
drop_join-IsGood (amount n ∷ ts) h = h

skip_breaks-IsGood : (ts : List Token) → All IsGood ts → All IsGood (skip_breaks ts)
unfolding skip_breaks
skip_breaks-IsGood [] h = tt
skip_breaks-IsGood (break ∷ ts) h = skip_breaks-IsGood ts h.1
skip_breaks-IsGood (join ∷ ts) h = h
skip_breaks-IsGood (size s ∷ ts) h = h
skip_breaks-IsGood (amount n ∷ ts) h = h

abbrev pub IsRead : Line × Kind × List Token → Type 0
IsRead (l, k, rest) = IsLine l × All IsGood rest

read_pair-IsRead :
    (t : Token) (ts : List Token) {r : Line × Kind × List Token}
    → IsGood t
    → All IsGood ts
    → read_pair t ts ≡ some r
    → IsRead r
read_pair-IsRead (size s) (amount n ∷ ts) g h e = subst IsRead (some-injective e) ((g, h.0), h.1)
read_pair-IsRead (amount n) (size s ∷ ts) g h e = subst IsRead (some-injective e) ((h.0, g), h.1)
read_pair-IsRead (size s) (size n ∷ ts) g h e = cc
read_pair-IsRead (size s) (break ∷ ts) g h e = cc
read_pair-IsRead (size s) (join ∷ ts) g h e = cc
read_pair-IsRead (size s) [] g h e = cc
read_pair-IsRead (amount s) (amount n ∷ ts) g h e = cc
read_pair-IsRead (amount s) (break ∷ ts) g h e = cc
read_pair-IsRead (amount s) (join ∷ ts) g h e = cc
read_pair-IsRead (amount s) [] g h e = cc
read_pair-IsRead break ts g h e = cc
read_pair-IsRead join ts g h e = cc

paired-injective : {a b : Option (List Line)} → paired a ≡ paired b → a ≡ b
paired-injective h = cc

pair_within-IsLine :
    (fuel : ℕ) (order : Option Kind) (lines : List Line) (ts : List Token) {ls : List Line}
    → All IsLine lines
    → All IsGood ts
    → lines_of (pair_within fuel order lines ts) ≡ some ls
    → All IsLine ls
unfolding pair_within
pair_within-IsLine zero order lines ts fine good h = cc
pair_within-IsLine (suc fuel) order lines [] fine good h =
    subst (All IsLine) (some-injective h) fine
pair_within-IsLine (suc fuel) order lines (t ∷ ts) {ls} fine good h =
    elim (Option-cases (read_pair t (drop_join ts))) [
      | inl unpaired ↦
          let e : Path (Option (List Line)) none (some ls) =
            sym (ap lines_of (round-unpaired fuel order lines t ts unpaired)) ∙ h in
          absurd (cc)
      | inr ((l, k, rest), found) ↦
          let read = read_pair-IsRead t (drop_join ts) good.0 (drop_join-IsGood ts good.1) found in
          elim (Bool-cases (is_order order k)) [
            | inl same ↦
                pair_within-IsLine fuel (some k) (lines ++ l ∷ []) (skip_breaks rest)
                  (All-append IsLine lines (l ∷ []) fine (read.0, tt))
                  (skip_breaks-IsGood rest read.1)
                  (sym (ap lines_of (round-paired fuel order lines t ts l k rest found same)) ∙ h)
            | inr mixed ↦
                let e : Path (Option (List Line)) none (some ls) =
                  sym (ap lines_of (round-mixed fuel order lines t ts l k rest found mixed)) ∙ h in
                absurd (cc)
          ]
    ]

paired_tokens-IsLine :
    (o : Option (List Token)) {ls : List Line}
    → ((ts : List Token) → o ≡ some ts → All IsGood ts)
    → paired_tokens o ≡ some ls
    → All IsLine ls
unfolding pair
paired_tokens-IsLine none good h = cc
paired_tokens-IsLine (some ts) good h =
    pair_within-IsLine (suc (length ts)) none [] (skip_breaks ts) tt
      (skip_breaks-IsGood ts (good ts refl)) h

filled-IsGrade :
    (o : Option (List Line)) {ls : List Line}
    → ((ms : List Line) → o ≡ some ms → All IsLine ms)
    → filled o ≡ some ls
    → IsGrade ls
filled-IsGrade none fine h = cc
filled-IsGrade (some []) fine h = cc
filled-IsGrade (some (l ∷ ms)) fine h = elim (Bool-cases (has_repeats (l ∷ ms))) [
  | inl twice ↦ absurd (ground (arith, twice))
  | inr once ↦
      let e : Path (Option (List Line)) (some (l ∷ ms)) (some _) = ground (arith, once, h) in
      subst IsGrade (some-injective e)
        (record { fine = fine (l ∷ ms) refl; distinct = once; filled = refl })
]

line_before-IsLine :
    (o : Option Line) (p : Option (List Line)) {ls : List Line}
    → ((l : Line) → o ≡ some l → IsLine l)
    → ((ms : List Line) → p ≡ some ms → All IsLine ms)
    → line_before o p ≡ some ls
    → All IsLine ls
line_before-IsLine none none first rest h = cc
line_before-IsLine none (some ms) first rest h = cc
line_before-IsLine (some l) none first rest h = cc
line_before-IsLine (some l) (some ms) first rest h =
    subst (All IsLine) (some-injective h) (first l refl, rest ms refl)

line_of-IsLine :
    (o : Option Text) (p : Option ℕ) {l : Line}
    → ((s : Text) → o ≡ some s → is_printed s ≡ true)
    → ((n : ℕ) → p ≡ some n → is_count n ≡ true)
    → line_of o p ≡ some l
    → IsLine l
line_of-IsLine none none known fine h = cc
line_of-IsLine none (some n) known fine h = cc
line_of-IsLine (some s) none known fine h = cc
line_of-IsLine (some s) (some n) known fine h =
    subst IsLine (some-injective h) (known s refl, fine n refl)

count_of-is_count : (raw : Raw) {n : ℕ} → count_of raw ≡ some n → is_count n ≡ true
unfolding count_of
count_of-is_count (whole m) h = ground arith
count_of-is_count (numeric s) h = cc
count_of-is_count other h = cc
count_of-is_count (typed s) h =
    if-either (is_empty (trimmed s) || not (all is_digit (trimmed s))) none
      (count_of_digits (trimmed s)) h (λ e. cc) (λ e. count_of_digits-is_count (trimmed s) e)

object_lines-IsLine :
    (fold : Text → Text) (entries : List (Text × Raw)) {ls : List Line}
    → object_lines fold entries ≡ some ls
    → All IsLine ls
unfolding object_lines
object_lines-IsLine fold [] h = subst (All IsLine) (some-injective h) tt
object_lines-IsLine fold ((key, raw) ∷ entries) h =
    line_before-IsLine (line_of (size_name (trimmed (fold key))) (count_of raw))
      (object_lines fold entries)
      (λ l.
        line_of-IsLine (size_name (trimmed (fold key))) (count_of raw)
          (λ s. size_name-printed (trimmed (fold key))) (λ n. count_of-is_count raw))
      (λ ms. object_lines-IsLine fold entries) h

abbrev pub IsList : Value → Type 0
IsList (array es) = Unit
IsList _ = ⊥

-- A grade that is read from a text or from an object has a printed size of the catalog and a count
-- from 1 to the greatest safe integer in every line, no size twice, and a line at least. A grade
-- from a list keeps its sizes as they are written there.
pub parse_sizes-IsGrade :
    (fold : Text → Text) (value : Value) {ls : List Line}
    → parse_sizes fold value ≡ some ls
    → IsList value ⊎ IsGrade ls
unfolding parse_sizes parse_sizes_text parse_size_object
parse_sizes-IsGrade fold (array es) h = inl tt
parse_sizes-IsGrade fold no_sizes h = cc
parse_sizes-IsGrade fold (object entries) h =
    inr (filled-IsGrade (object_lines fold entries) (λ ms. object_lines-IsLine fold entries) h)
parse_sizes-IsGrade fold (text s) h = inr (
    if-either (all is_space s || ltb 500 (length s)) none _ h (λ e. cc)
      (λ e.
        filled-IsGrade (paired_tokens (tokenize [] (fold s)))
          (λ ms. paired_tokens-IsLine (tokenize [] (fold s)) (λ ts. tokenize-IsGood [] (fold s)))
          e))
