-- ===== src/Orders/Calendar.antt =====
-- `isCalendarDay`, `isMilestoneDay` of `order.js`, on days written `YYYY-MM-DD`. `Date.UTC`
-- carries a day that its month does not have into the next month and reads the years 0 to 99 as
-- 1900 to 1999, so a day comes back unchanged exactly when its year is at least 100 and the month
-- has it.
use crm_silmer.Base.{
  ltb, leb, ◌==◌, nat_eq, text_eq, if◌then◌else◌, ℕ, ◌+◌, ◌-◌, ◌*◌, ◌%◌, Bool, true, false, not,
  ◌&&◌, ◌||◌, Option, none, some, [], ◌∷◌,
}
use crm_silmer.Orders.{Text}

unfoldable pub is_digit : ℕ → Bool
is_digit c = leb b'0' c && leb c b'9'

-- `Number` of a run of digits, on from a value.
unfoldable pub read_digits : ℕ → Text → Option ℕ
read_digits acc [] = some acc
read_digits acc (c ∷ cs) = if is_digit c then read_digits (acc * 10 + (c - b'0')) cs else none

abbrev pub is_leap : ℕ → Bool
is_leap y = y % 4 == 0 && (not (y % 100 == 0) || y % 400 == 0)

unfoldable pub days_in_month : ℕ → ℕ → ℕ
days_in_month y m =
    if m == 2
    then (if is_leap y then 29 else 28)
    else if m == 4 || m == 6 || m == 9 || m == 11
    then 30
    else 31

unfoldable pub is_date : ℕ → ℕ → ℕ → Bool
unfolding days_in_month
is_date y m d = leb 100 y && leb 1 m && leb m 12 && leb 1 d && leb d (days_in_month y m)

abbrev date_of : Option ℕ → Option ℕ → Option ℕ → Bool
date_of (some y) (some m) (some d) = is_date y m d
date_of _ _ _ = false

-- `ISO_DAY` and the round trip through `Date`.
unfoldable pub is_calendar_text : Text → Bool
unfolding is_date read_digits is_digit
is_calendar_text (a ∷ b ∷ c ∷ d ∷ e ∷ f ∷ g ∷ h ∷ i ∷ j ∷ []) =
    e == b'-'
    && h == b'-'
    && date_of (read_digits 0 (a ∷ b ∷ c ∷ d ∷ [])) (read_digits 0 (f ∷ g ∷ []))
        (read_digits 0 (i ∷ j ∷ []))
is_calendar_text _ = false

abbrev pub is_calendar_day : Option Text → Bool
is_calendar_day none = false
is_calendar_day (some t) = is_calendar_text t

-- `left <= right` on texts.
unfoldable pub text_leb : Text → Text → Bool
text_leb [] ys = true
text_leb (x ∷ xs) [] = false
text_leb (x ∷ xs) (y ∷ ys) = let rest = text_leb xs ys in if x == y then rest else ltb x y

-- A day of the trail is null, or a day that has come.
unfoldable pub is_milestone_day : Option Text → Text → Bool
is_milestone_day none today = true
is_milestone_day (some day) today = is_calendar_text day && text_leb day today
