-- ===== src/Orders/Amounts.antt =====
-- Amounts that are written and read again.
use native.Mathlib.Nat.{add-mul, mul_assoc}
use crm_silmer.Base.{
  ok, length, any, is_space, digits, value, AreDigits, digits_within-AreDigits, value-digits_within,
  length-digits_within, ℕ, suc, ◌+◌, ◌*◌, ◌/◌, ◌%◌, ◌≤◌, ◌<◌, ◌≡◌, refl, sym, ap, ◌∙◌, true, false,
  some, List, [], ◌∷◌, arith,
}
use crm_silmer.Orders.{Text}
use crm_silmer.Orders.Calendar.{is_digit}
use crm_silmer.Orders.Money.{
  trim_left, unless_last_space, trim_right, groups, read, read_amount, is_amount, parse_brl_amount,
  put_digits, put_groups, format_brl_amount,
}

is_digit-add : (d : ℕ) → d < 10 → is_digit (48 + d) ≡ true
unfolding is_digit
is_digit-add d h = ground arith

-- A text after the first digits: it goes on with a dot or a comma, and adds to what stands before.
record Continues (m w : ℕ) (s : Text) : Type 0 where
  groups_value : (n : ℕ) → groups n s ≡ some (n * m + w)
  head_value : (n k : ℕ) → k ≤ 3 → read n k s ≡ groups n s

read-digit : (n k d : ℕ) (s : Text) → d < 10 → read n k ((48 + d) ∷ s) ≡ read (n * 10 + d) (suc k) s
unfolding read
read-digit n k d s h = rw (is_digit-add d h) (ap (λ x. read (n * 10 + x) (suc k) s) (omega arith))

cents-Continues :
    (c d : ℕ) → c < 10 → d < 10 → Continues 100 (c * 10 + d) (44 ∷ (48 + c) ∷ (48 + d) ∷ [])
unfolding groups read is_digit
cents-Continues c d hc hd = record {
  groups_value = λ n. ground arith;
  head_value = λ n k h. ground arith;
}

regroup : (n x m w : ℕ) → (n * 1000 + x) * m + w ≡ n * (1000 * m) + (x * m + w)
regroup n x m w = rw (add-mul (n * 1000) x m, mul_assoc n 1000 m) (omega arith)

group-Continues :
    (m w a b c : ℕ) (s : Text)
    → a < 10
    → b < 10
    → c < 10
    → Continues m w s
    → Continues
        (1000 * m)
        ((c * 100 + b * 10 + a) * m + w)
        (46 ∷ (48 + c) ∷ (48 + b) ∷ (48 + a) ∷ s)
unfolding groups read is_digit
group-Continues m w a b c s ha hb hc t = record {
  groups_value = λ n.
      let x = c * 100 + b * 10 + a in
      rw (is_digit-add a ha, is_digit-add b hb, is_digit-add c hc)
        (ap (λ y. groups y s) (omega arith)
          ∙ t.groups_value (n * 1000 + x)
          ∙ ap some (regroup n x m w));
  head_value = λ n k h. ground (arith, h);
}

first-digit : (a : ℕ) (s : Text) → a < 10 → read_amount ((48 + a) ∷ s) ≡ read a 1 s
first-digit a s h = rw (is_digit-add a h) (ap (λ x. read x 1 s) (omega arith))

goes_on :
    (n k v m w : ℕ) (s : Text) → Continues m w s → k ≤ 3 → n ≡ v → read n k s ≡ some (v * m + w)
goes_on n k v m w s t most e =
    t.head_value n k most ∙ t.groups_value n ∙ ap (λ x. some (x * m + w)) e

-- The digits that are left, three at most, and what goes on after them.
front-read :
    (ds : List ℕ) (m w : ℕ) (s : Text)
    → AreDigits ds
    → 1 ≤ length ds
    → length ds ≤ 3
    → Continues m w s
    → read_amount (put_digits ds s) ≡ some (value ds * m + w)
front-read [] m w s h least most t = absurd (ground arith)
front-read (a ∷ []) m w s h least most t =
    first-digit a s h.0 ∙ goes_on a 1 (a + 10 * 0) m w s t (omega arith) (omega arith)
front-read (a ∷ b ∷ []) m w s h least most t =
    first-digit b _ h.1.0
    ∙ read-digit b 1 a s h.0
    ∙ goes_on (b * 10 + a) 2 (a + 10 * (b + 10 * 0)) m w s t (omega arith) (omega arith)
front-read (a ∷ b ∷ c ∷ []) m w s h least most t =
    first-digit c _ h.1.1.0
    ∙ read-digit c 1 b _ h.1.0
    ∙ read-digit (c * 10 + b) 2 a s h.0
    ∙ goes_on ((c * 10 + b) * 10 + a) 3 (a + 10 * (b + 10 * (c + 10 * 0))) m w s t (omega arith)
        (omega arith)
front-read (a ∷ b ∷ c ∷ d ∷ ds) m w s h least most t = absurd (ground arith)

value-three :
    (a b c v m w : ℕ)
    → (a + 10 * (b + 10 * (c + 10 * v))) * m + w ≡ v * (1000 * m) + ((c * 100 + b * 10 + a) * m + w)
value-three a b c v m w = ap (λ x. x * m + w) (omega arith) ∙ regroup v (c * 100 + b * 10 + a) m w

put_groups-read :
    (ds : List ℕ) (m w : ℕ) (s : Text)
    → AreDigits ds
    → 1 ≤ length ds
    → Continues m w s
    → read_amount (put_groups ds s) ≡ some (value ds * m + w)
unfolding put_groups
put_groups-read [] m w s h least t = absurd (ground arith)
put_groups-read (a ∷ []) m w s h least t = front-read (a ∷ []) m w s h least (omega arith) t
put_groups-read (a ∷ b ∷ []) m w s h least t = front-read (a ∷ b ∷ []) m w s h least (omega arith) t
put_groups-read (a ∷ b ∷ c ∷ []) m w s h least t =
    front-read (a ∷ b ∷ c ∷ []) m w s h least (omega arith) t
put_groups-read (a ∷ b ∷ c ∷ d ∷ ds) m w s h least t =
    put_groups-read (d ∷ ds) (1000 * m) ((c * 100 + b * 10 + a) * m + w) _ h.1.1.1 (omega arith)
      (group-Continues m w a b c s h.0 h.1.0 h.1.1.0 t)
    ∙ ap some (sym (value-three a b c (value (d ∷ ds)) m w))

-- Nothing to trim where there is no white space.
unless_last_space-clean : (c : ℕ) (s : Text) → is_space c ≡ false → unless_last_space c s ≡ c ∷ s
unless_last_space-clean c [] h = ground (arith, h)
unless_last_space-clean c (d ∷ s) h = refl

trim_right-clean : (s : Text) → any is_space s ≡ false → trim_right s ≡ s
trim_right-clean [] h = refl
trim_right-clean (c ∷ s) h =
    ap (unless_last_space c) (trim_right-clean s (ground arith))
    ∙ unless_last_space-clean c s (ground arith)

trim_left-clean : (s : Text) → any is_space s ≡ false → trim_left s ≡ s
trim_left-clean [] h = refl
trim_left-clean (c ∷ s) h = ground (arith, h)

trim-clean : (s : Text) → any is_space s ≡ false → trim_right (trim_left s) ≡ s
trim-clean s h = ap trim_right (trim_left-clean s h) ∙ trim_right-clean s h

space-digit : (d : ℕ) → d < 10 → is_space (48 + d) ≡ false
unfolding is_space
space-digit d h = ground arith

space-dot : is_space 46 ≡ false
unfolding is_space
space-dot = refl

space-comma : is_space 44 ≡ false
unfolding is_space
space-comma = refl

put_digits-clean :
    (ds : List ℕ) (s : Text)
    → AreDigits ds
    → any is_space s ≡ false
    → any is_space (put_digits ds s) ≡ false
put_digits-clean [] s h clean = clean
put_digits-clean (d ∷ ds) s h clean =
    put_digits-clean ds _ h.1 (ground (arith, space-digit d h.0, clean))

put_groups-clean :
    (ds : List ℕ) (s : Text)
    → AreDigits ds
    → any is_space s ≡ false
    → any is_space (put_groups ds s) ≡ false
unfolding put_groups
put_groups-clean [] s h clean = put_digits-clean [] s h clean
put_groups-clean (a ∷ []) s h clean = put_digits-clean (a ∷ []) s h clean
put_groups-clean (a ∷ b ∷ []) s h clean = put_digits-clean (a ∷ b ∷ []) s h clean
put_groups-clean (a ∷ b ∷ c ∷ []) s h clean = put_digits-clean (a ∷ b ∷ c ∷ []) s h clean
put_groups-clean (a ∷ b ∷ c ∷ d ∷ ds) s h clean = put_groups-clean (d ∷ ds) _ h.1.1.1 (
    ground (arith, space-digit a h.0, space-digit b h.1.0, space-digit c h.1.1.0, clean, space-dot))

-- An amount of cents that is written in the Brazilian format reads as itself: every amount from one
-- cent to the largest safe integer can be written, and the text reads as the same cents.
pub parse_brl_amount-format_brl_amount :
    (cents : ℕ)
    → is_amount cents ≡ true
    → (text : Text) × (format_brl_amount cents ≡ ok text) × (parse_brl_amount text ≡ ok cents)
unfolding format_brl_amount parse_brl_amount
parse_brl_amount-format_brl_amount cents h =
    let n = cents / 100 in
    let d = cents % 100 / 10 in
    let e = cents % 100 % 10 in
    let ends : Text = 44 ∷ (48 + d) ∷ (48 + e) ∷ [] in
    let small : d < 10 = omega arith in
    let small' : e < 10 = omega arith in
    let text = put_groups (digits n) ends in
    let clean =
      put_groups-clean (digits n) ends (digits_within-AreDigits (suc n) n)
        (ground (arith, space-digit d small, space-digit e small', space-comma)) in
    let total : value (digits n) * 100 + (d * 10 + e) ≡ cents =
      omega (arith, value-digits_within (suc n) n (omega arith)) in
    let reads : read_amount (trim_right (trim_left text)) ≡ some cents =
      ap read_amount (trim-clean text clean)
      ∙ put_groups-read (digits n) 100 (d * 10 + e) ends (digits_within-AreDigits (suc n) n)
          (length-digits_within n n) (cents-Continues d e small small')
      ∙ ap some total in
    (text, rw h refl, rw (reads, h) refl)
