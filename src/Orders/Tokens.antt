-- ===== src/Orders/Tokens.antt =====
-- The tokens of a customer's sizes: what `tokenize` gives.
use crm_silmer.Base.{
  text_eq, nat_eq, ◌==◌, if◌then◌else◌, Bool-cases, Option-cases, any, all, All, All-append,
  is_space, digits, ℕ, ◌≡◌, refl, subst, ◌⊎◌, inl, inr, Bool, true, false, ◌&&◌, Option, none, some,
  List, [], ◌∷◌, ◌++◌, arith,
}
use crm_silmer.Orders.{Text}
use crm_silmer.Orders.Calendar.{is_digit}
use crm_silmer.Orders.Sizes.{
  Token, size, amount, break, join, same_codes, size_names, is_empty, name_in, size_name, is_count,
  count_of_digits, is_capital, span, count_then_size, size_then_count, just_count, counted, sized,
  read_glued, read_word, is_word, is_break, is_join, in_front, tokens_of, separator, tokenize,
}

pub some-injective {ℓ} : {A : Type ℓ} {a b : A} → Path (Option A) (some a) (some b) → a ≡ b
some-injective h = cc

-- A size in the catalog's print.
unfoldable pub is_printed : Text → Bool
unfolding same_codes
is_printed s = any (λ (entry : Text × Text). same_codes entry.1 s) size_names

abbrev pub IsGood : Token → Type 0
IsGood (size s) = is_printed s ≡ true
IsGood (amount n) = is_count n ≡ true
IsGood break = Unit
IsGood join = Unit

same_codes_refl : (s : Text) → same_codes s s ≡ true
unfolding same_codes
same_codes_refl [] = refl
same_codes_refl (c ∷ s) = ground (arith, same_codes_refl s)

name_in-printed :
    (w : Text) (m : List (Text × Text)) {s : Text}
    → name_in w m ≡ some s
    → any (λ (entry : Text × Text). same_codes entry.1 s) m ≡ true
unfolding name_in
name_in-printed w [] h = cc
name_in-printed w ((f, p) ∷ m) {s} h =
    ground (arith, name_in-printed w m {s = s}, same_codes_refl s)

pub count_of_digits-is_count : (s : Text) {n : ℕ} → count_of_digits s ≡ some n → is_count n ≡ true
unfolding count_of_digits
count_of_digits-is_count s h = ground arith

just_count-IsGood :
    (o : Option ℕ) {ts : List Token}
    → ((n : ℕ) → o ≡ some n → is_count n ≡ true)
    → just_count o ≡ some ts
    → All IsGood ts
just_count-IsGood none fine h = cc
just_count-IsGood (some n) fine h = subst (All IsGood) (some-injective h) (fine n refl, tt)

count_then_size-IsGood :
    (o : Option ℕ) (p : Option Text) {ts : List Token}
    → ((n : ℕ) → o ≡ some n → is_count n ≡ true)
    → ((s : Text) → p ≡ some s → is_printed s ≡ true)
    → (count_then_size o p ≡ some ts) ⊎ (size_then_count p o ≡ some ts)
    → All IsGood ts
count_then_size-IsGood none none fine known (inl h) = cc
count_then_size-IsGood none none fine known (inr h) = cc
count_then_size-IsGood none (some s) fine known (inl h) = cc
count_then_size-IsGood none (some s) fine known (inr h) = cc
count_then_size-IsGood (some n) none fine known (inl h) = cc
count_then_size-IsGood (some n) none fine known (inr h) = cc
count_then_size-IsGood (some n) (some s) fine known (inl h) =
    subst (All IsGood) (some-injective h) (fine n refl, (known s refl, tt))
count_then_size-IsGood (some n) (some s) fine known (inr h) =
    subst (All IsGood) (some-injective h) (known s refl, (fine n refl, tt))

pub size_name-printed : (w : Text) {s : Text} → size_name w ≡ some s → is_printed s ≡ true
unfolding is_printed
size_name-printed w h = name_in-printed w size_names h

counted-IsGood : (p : Text × Text) {ts : List Token} → counted p ≡ some ts → All IsGood ts
counted-IsGood (digits, []) h =
    just_count-IsGood (count_of_digits digits) (λ n. count_of_digits-is_count digits) h
counted-IsGood (digits, c ∷ s) h =
    count_then_size-IsGood (count_of_digits digits) (size_name (c ∷ s))
      (λ n. count_of_digits-is_count digits) (λ t. size_name-printed (c ∷ s)) (inl h)

sized-IsGood : (p : Text × Text) {ts : List Token} → sized p ≡ some ts → All IsGood ts
sized-IsGood ([], number) h = cc
sized-IsGood (c ∷ letters, []) h = cc
sized-IsGood (c ∷ letters, d ∷ number) {ts} h = elim (Bool-cases (all is_digit (d ∷ number))) [
  | inl fine ↦
      count_then_size-IsGood (count_of_digits (d ∷ number)) (size_name (c ∷ letters))
        (λ n. count_of_digits-is_count (d ∷ number)) (λ t. size_name-printed (c ∷ letters))
        (inr (
          subst
            (λ b.
              (if b
                then size_then_count (size_name (c ∷ letters)) (count_of_digits (d ∷ number))
                else none)
              ≡ some ts)
            fine h))
  | inr mixed ↦ absurd (ground (arith, mixed))
]

-- A test hands over one of its branches.
pub if-either {ℓ κ} :
    {A : Type ℓ} {P : Type κ} (b : Bool) (x y : Option A) {a : A}
    → (if b then x else y) ≡ some a
    → (x ≡ some a → P)
    → (y ≡ some a → P)
    → P
if-either true x y h f g = f h
if-either false x y h f g = g h

read_glued-IsGood : (w : Text) {ts : List Token} → read_glued w ≡ some ts → All IsGood ts
unfolding read_glued
read_glued-IsGood w h =
    if-either (is_empty (span is_digit w).0) (sized (span is_capital w)) (counted (span is_digit w))
      h (λ e. sized-IsGood (span is_capital w) e) (λ e. counted-IsGood (span is_digit w) e)

read_word-IsGood : (w : Text) {ts : List Token} → read_word w ≡ some ts → All IsGood ts
unfolding read_word
read_word-IsGood w {ts} h = elim (Option-cases (size_name w)) [
  | inl unnamed ↦ read_glued-IsGood w (ground (arith, unnamed))
  | inr (s, named) ↦
      let e : Path (Option (List Token)) (some (size s ∷ [])) (some ts) =
        ground (arith, named, h) in
      subst (All IsGood) (some-injective e) (size_name-printed w named, tt)
]

in_front-IsGood :
    (o p : Option (List Token)) {ts : List Token}
    → ((us : List Token) → o ≡ some us → All IsGood us)
    → ((us : List Token) → p ≡ some us → All IsGood us)
    → in_front o p ≡ some ts
    → All IsGood ts
in_front-IsGood none p first rest h = cc
in_front-IsGood (some us) none first rest h = cc
in_front-IsGood (some us) (some vs) first rest h =
    subst (All IsGood) (some-injective h) (All-append IsGood us vs (first us refl) (rest vs refl))

tokens_of-IsGood : (w : Text) {ts : List Token} → tokens_of w ≡ some ts → All IsGood ts
tokens_of-IsGood [] h = subst (All IsGood) (some-injective h) tt
tokens_of-IsGood (c ∷ w) h =
    if-either (c == b'E' && is_empty w) (some (break ∷ [])) (read_word (c ∷ w)) h
      (λ e. subst (All IsGood) (some-injective e) (tt, tt)) (λ e. read_word-IsGood (c ∷ w) e)

separator-IsGood : (c : ℕ) {ts : List Token} → separator c ≡ some ts → All IsGood ts
separator-IsGood c h =
    if-either (is_break c) (some (break ∷ [])) _ h
      (λ e. subst (All IsGood) (some-injective e) (tt, tt))
      (λ e.
        if-either (is_join c) (some (join ∷ [])) _ e
          (λ f. subst (All IsGood) (some-injective f) (tt, tt))
          (λ f.
            if-either (is_space c) (some []) none f (λ g. subst (All IsGood) (some-injective g) tt)
              (λ g. cc)))

pub tokenize-IsGood : (word s : Text) {ts : List Token} → tokenize word s ≡ some ts → All IsGood ts
unfolding tokenize
tokenize-IsGood word [] h = tokens_of-IsGood word h
tokenize-IsGood word (c ∷ s) h =
    if-either (is_word c) (tokenize (word ++ c ∷ []) s) _ h
      (λ e. tokenize-IsGood (word ++ c ∷ []) s e)
      (λ e.
        in_front-IsGood (tokens_of word) (in_front (separator c) (tokenize [] s))
          (λ us. tokens_of-IsGood word)
          (λ us.
            in_front-IsGood (separator c) (tokenize [] s) (λ vs. separator-IsGood c)
              (λ vs. tokenize-IsGood [] s))
          e)
