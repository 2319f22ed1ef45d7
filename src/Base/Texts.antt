-- ===== src/Base/Texts.antt =====
-- White space and `String.prototype.trim`.
use Prim.Native.String.{◌++◌}
use crm_silmer.Base.Tests.{leb, text_eq, nat_eq, ◌==◌, if◌then◌else◌, Bool-cases}
use Prim.Native.Nat.{ℕ}
use Prim.Native.String.{String}
use Prim.Native.Char.{Char, code}
use mathlib.Core.Bool.{Bool, true, false, not, ◌&&◌, ◌||◌}
use mathlib.Core.Path.{◌≡◌, refl, sym, ◌∙◌, ap}
use mathlib.Core.Logic.{◌↔◌, inl, inr}
use native.Mathlib.Omega.{arith}
use text.Mathlib.TextEquality.{eq_iff}

-- White space as `String.prototype.trim` and `\s` have it.
unfoldable pub is_space : ℕ → Bool
is_space c =
    leb 9 c && leb c 13
    || c == 32
    || c == 160
    || c == 5760
    || leb 8192 c && leb c 8202
    || c == 8232
    || c == 8233
    || c == 8239
    || c == 8287
    || c == 12288
    || c == 65279

unfoldable pub trim_start : String → String
unfolding is_space
trim_start String.[] = String.[]
trim_start (String.◌∷◌ c s) = if is_space (code c) then trim_start s else String.◌∷◌ c s

unfoldable pub trim_end : String → String
unfolding is_space
trim_end String.[] = String.[]
trim_end (String.◌∷◌ c s) =
    let rest = trim_end s in
    if is_space (code c) && rest == "" then String.[] else String.◌∷◌ c rest

unfoldable pub trim : String → String
unfolding trim_start trim_end
trim s = trim_end (trim_start s)

trim_end-trim_end : (s : String) → trim_end (trim_end s) ≡ trim_end s
unfolding trim_end
trim_end-trim_end String.[] = refl
trim_end-trim_end (String.◌∷◌ c s) = elim (Bool-cases (is_space (code c) && trim_end s == "")) [
  | inl gone ↦ rw gone refl
  | inr kept ↦ rw (kept, trim_end-trim_end s, kept) refl
]

trim_start-trim : (s : String) → trim_start (trim s) ≡ trim s
unfolding trim trim_start trim_end
trim_start-trim String.[] = refl
trim_start-trim (String.◌∷◌ c s) = elim (Bool-cases (is_space (code c))) [
  | inl space ↦ rw space (trim_start-trim s)
  | inr solid ↦ rw (solid, solid, solid) refl
]

pub trim-trim : (s : String) → trim (trim s) ≡ trim s
unfolding trim
trim-trim s = rw (trim_start-trim s) (trim_end-trim_end (trim_start s))

-- The last code of a text that begins with one.
abbrev pub last_code : ℕ → String → ℕ
last_code n String.[] = n
last_code n (String.◌∷◌ c s) = last_code (code c) s

-- A text that has no white space at its ends, and is not empty.
abbrev pub IsTrimmed : String → Type 0
IsTrimmed String.[] = ⊥
IsTrimmed (String.◌∷◌ c s) = (is_space (code c) ≡ false) × (is_space (last_code (code c) s) ≡ false)

trim_start_solid :
    (c : Char) (s t : String) → trim_start s ≡ String.◌∷◌ c t → is_space (code c) ≡ false
unfolding trim_start
trim_start_solid c String.[] t h = cc
trim_start_solid c (String.◌∷◌ d s) t h = elim (Bool-cases (is_space (code d))) [
  | inl space ↦ trim_start_solid c s t (sym (rw space refl) ∙ h)
  | inr solid ↦ let e : String.◌∷◌ d s ≡ String.◌∷◌ c t = sym (rw solid refl) ∙ h in cc (e, solid)
]

cons-eq-empty : (c : Char) (s : String) → (String.◌∷◌ c s == "") ≡ false
cons-eq-empty c s = elim (Bool-cases (String.◌∷◌ c s == "")) [
  | inl same ↦ absurd (cc ((eq_iff (String.◌∷◌ c s) "").0 same))
  | inr other ↦ other
]

trim_end_kept :
    (c : Char) (s : String)
    → is_space (last_code (code c) s) ≡ false
    → trim_end (String.◌∷◌ c s) ≡ String.◌∷◌ c s
unfolding trim_end
trim_end_kept c String.[] h = rw h refl
trim_end_kept c (String.◌∷◌ d s) h = elim (Bool-cases (is_space (code c))) [
  | inl space ↦ rw (trim_end_kept d s h, space, cons-eq-empty d s) refl
  | inr solid ↦ rw (trim_end_kept d s h, solid) refl
]

rest_kept :
    (b : Bool) (c : Char) (r t : String)
    → (if b then String.[] else String.◌∷◌ c r) ≡ String.◌∷◌ c t
    → r ≡ t
rest_kept true c r t h = cc
rest_kept false c r t h = cc

trim_end_last :
    (c : Char) (s : String)
    → trim_end (String.◌∷◌ c s) ≡ String.◌∷◌ c s
    → is_space (last_code (code c) s) ≡ false
unfolding trim_end
trim_end_last c String.[] h = elim (Bool-cases (is_space (code c))) [
  | inl space ↦
      let e : String.[] ≡ String.◌∷◌ c String.[] = sym (rw space refl) ∙ h in absurd (cc e)
  | inr solid ↦ solid
]
trim_end_last c (String.◌∷◌ d s) h =
    let rest = trim_end (String.◌∷◌ d s) in
    trim_end_last d s (rest_kept (is_space (code c) && rest == "") c rest (String.◌∷◌ d s) h)

trim_start_kept : (s : String) → trim s ≡ s → trim_start s ≡ s
trim_start_kept s h = sym (ap trim_start h) ∙ trim_start-trim s ∙ h

solid_start :
    (c : Char) (s : String)
    → is_space (code c) ≡ false
    → trim_start (String.◌∷◌ c s) ≡ String.◌∷◌ c s
unfolding trim_start
solid_start c s solid = rw solid refl

-- A text that does not begin with white space is not blank.
pub trim_solid :
    (c : Char) (s : String) → is_space (code c) ≡ false → (trim (String.◌∷◌ c s) == "") ≡ false
unfolding trim trim_end
trim_solid c s solid = rw (solid_start c s solid, solid) (cons-eq-empty c (trim_end s))

-- `trim` leaves a text of its own exactly where no white space is at its ends.
pub IsTrimmed-iff : (s : String) → (not (trim s == "") && s == trim s ≡ true) ↔ IsTrimmed s
unfolding trim
IsTrimmed-iff String.[] = (λ h. cc, λ h. absurd h)
IsTrimmed-iff (String.◌∷◌ c s) = (
  λ h.
      let kept : trim (String.◌∷◌ c s) ≡ String.◌∷◌ c s =
        sym ((eq_iff (String.◌∷◌ c s) (trim (String.◌∷◌ c s))).0 (ground arith)) in
      let solid = trim_start_solid c (String.◌∷◌ c s) s (trim_start_kept (String.◌∷◌ c s) kept) in
      (solid, trim_end_last c s (sym (ap trim_end (solid_start c s solid)) ∙ kept)),
  λ h.
      let kept : trim (String.◌∷◌ c s) ≡ String.◌∷◌ c s =
        ap trim_end (solid_start c s h.0) ∙ trim_end_kept c s h.1 in
      rw (kept, cons-eq-empty c s) ((eq_iff (String.◌∷◌ c s) (String.◌∷◌ c s)).1 refl),
)

-- Two texts with a separator between them.
abbrev pub text_join : String → String → String → String
text_join separator a b = a ++ (separator ++ b)
