-- ===== src/Catalog/Valid.antt =====
-- What a catalog is, said of its codes, names and entries, and not by the checks.
use Prim.Native.Char.{code}
use crm_silmer.Base.{
  leb, text_eq, nat_eq, ◌==◌, Bool-cases, ok, length, all, All, is_space, IsTrimmed, trim_solid,
  IsTrimmed-iff, ℕ, suc, ◌≤◌, String, ◌≡◌, refl, ap, ◌≢◌, ◌↔◌, ◌⊎◌, inl, inr, Bool, true, false,
  ◌&&◌, List, [], ◌∷◌, arith, eq_iff,
}
use crm_silmer.Catalog.{
  Entry, Model, Values, is_non_empty, is_code_char, all_code_chars, characters, is_code, is_entry,
  is_model, has, is_filled_list, normalize_catalog_values,
}
use crm_silmer.Catalog.Entries.{Distinct, codes, IsGroup, Passes, normalize-eq-ok, normalize-ok}

abbrev pub code_points : String → List ℕ
code_points String.[] = []
code_points (String.◌∷◌ c s) = code c ∷ code_points s

abbrev pub IsCodeChar : ℕ → Type 0
IsCodeChar c = ((b'A' ≤ c) × (c ≤ b'Z')) ⊎ ((b'0' ≤ c) × (c ≤ b'9')) ⊎ (c ≡ b'-')

-- A code has 2 to 32 characters, all of them capitals without marks, digits or hyphens.
pub record IsCode (s : String) : Type 0 where
  pub at_least : 2 ≤ length (code_points s)
  pub at_most : length (code_points s) ≤ 32
  pub chars : All IsCodeChar (code_points s)

abbrev pub IsEntry : Entry → Type 0
IsEntry e = IsCode e.code × IsTrimmed e.name

abbrev pub IsModel : Model → Type 0
IsModel m = IsEntry m.entry × IsCode m.product_code

module _ {A : Type 0} (code_of : A → String) where
  -- No two entries have one code.
  abbrev pub AreDifferent : List A → Type 0
  AreDifferent [] = Unit
  AreDifferent (x ∷ xs) = All (λ y. code_of y ≢ code_of x) xs × AreDifferent xs

-- There are entries, all of them right, and no two have one code.
pub record IsGroupOf {A : Type 0} (Right : A → Type 0) (code_of : A → String) (xs : List A)
    : Type 0 where
  pub filled : xs ≢ []
  pub right : All Right xs
  pub different : AreDifferent code_of xs

abbrev pub Some : {A : Type 0} → (A → Type 0) → List A → Type 0
Some P [] = ⊥
Some P (x ∷ xs) = P x ⊎ Some P xs

-- The four groups, and a product of the catalog for each model.
pub record IsCatalog (v : Values) : Type 0 where
  pub products : IsGroupOf IsEntry Entry.code v.products
  pub materials : IsGroupOf IsEntry Entry.code v.materials
  pub models : IsGroupOf IsModel (λ m. m.entry.code) v.models
  pub techniques : IsGroupOf IsEntry Entry.code v.techniques
  pub referenced : All (λ m. Some (λ e. Entry.code e ≡ Model.product_code m) v.products) v.models

characters_lem : (s : String) → characters s ≡ length (code_points s)
characters_lem String.[] = refl
characters_lem (String.◌∷◌ c s) = ap suc (characters_lem s)

is_code_char_iff : (c : ℕ) → (is_code_char c ≡ true) ↔ IsCodeChar c
is_code_char_iff c = (
  λ h. elim (Bool-cases (leb b'A' c && leb c b'Z')) [
    | inl capital ↦ inl (ground arith, ground arith)
    | inr other ↦ elim (Bool-cases (leb b'0' c && leb c b'9')) [
      | inl numeral ↦ inr (inl (ground arith, ground arith))
      | inr hyphen ↦ inr (inr (ground arith))
    ]
  ],
  λ h. ground (arith, h),
)

all_code_chars_iff : (s : String) → (all_code_chars s ≡ true) ↔ All IsCodeChar (code_points s)
all_code_chars_iff String.[] = (λ h. tt, λ h. refl)
all_code_chars_iff (String.◌∷◌ c s) = (
  λ h. ((is_code_char_iff (code c)).0 (ground arith), (all_code_chars_iff s).0 (ground arith)),
  λ h. ground (arith, (is_code_char_iff (code c)).1 h.0, (all_code_chars_iff s).1 h.1),
)

is_code_iff : (s : String) → (is_code s ≡ true) ↔ IsCode s
unfolding is_code
is_code_iff s =
    let n = characters_lem s in
    (
      λ h. record {
        at_least = ground (arith, n);
        at_most = ground (arith, n);
        chars = (all_code_chars_iff s).0 (ground arith);
      },
      λ h. ground (arith, n, h.at_least, h.at_most, (all_code_chars_iff s).1 h.chars),
    )

code_char_is_solid : (c : ℕ) → IsCodeChar c → is_space c ≡ false
unfolding is_space
code_char_is_solid c h = ground (arith, h)

-- A code is not blank.
IsCode-is_non_empty : (s : String) → IsCode s → is_non_empty s ≡ true
unfolding is_non_empty
IsCode-is_non_empty String.[] h = absurd (omega (arith, h.at_least))
IsCode-is_non_empty (String.◌∷◌ c s) h =
    rw (trim_solid c s (code_char_is_solid (code c) h.chars.0)) refl

is_entry_iff : (e : Entry) → (is_entry e ≡ true) ↔ IsEntry e
unfolding is_entry is_non_empty
is_entry_iff e =
    let name = IsTrimmed-iff e.name in
    let code = is_code_iff e.code in
    (
      λ h. (code.0 (ground arith), name.0 (ground arith)),
      λ h. ground (arith, code.1 h.0, name.1 h.1, IsCode-is_non_empty e.code h.0),
    )

is_model_iff : (m : Model) → (is_model m ≡ true) ↔ IsModel m
unfolding is_model
is_model_iff m =
    let entry = is_entry_iff m.entry in
    let code = is_code_iff m.product_code in
    (
      λ h. (entry.0 (ground arith), code.0 (ground arith)),
      λ h. ground (arith, entry.1 h.0, code.1 h.1, IsCode-is_non_empty m.product_code h.1),
    )

-- The Boolean tests of lists, as statements on their entries.
module _ {A : Type 0} (p : A → Bool) (P : A → Type 0) (same : (x : A) → (p x ≡ true) ↔ P x) where
  all_iff : (xs : List A) → (all p xs ≡ true) ↔ All P xs
  all_iff [] = (λ h. tt, λ h. refl)
  all_iff (x ∷ xs) = (
    λ h. ((same x).0 (ground arith), (all_iff xs).0 (ground arith)),
    λ h. ground (arith, (same x).1 h.0, (all_iff xs).1 h.1),
  )

module _ {A : Type 0} (code_of : A → String) (is_fine : A → Bool) where
  has_iff :
      (c : String) (xs : List A)
      → (has c (codes code_of is_fine xs) ≡ true) ↔ Some (λ x. code_of x ≡ c) xs
  has_iff c [] = (λ h. cc, λ h. absurd h)
  has_iff c (x ∷ xs) = (
    λ h. elim (Bool-cases (code_of x == c)) [
      | inl here ↦ inl ((eq_iff (code_of x) c).0 here)
      | inr there ↦ inr ((has_iff c xs).0 (ground arith))
    ],
    λ h. elim h [
      | inl here ↦ ground (arith, (eq_iff (code_of x) c).1 here)
      | inr there ↦ ground (arith, (has_iff c xs).1 there)
    ],
  )

  apart_iff :
      (c : String) (xs : List A)
      → (has c (codes code_of is_fine xs) ≡ false) ↔ All (λ y. code_of y ≢ c) xs
  apart_iff c [] = (λ h. tt, λ h. refl)
  apart_iff c (x ∷ xs) = (
    λ h. (λ e. ground (arith, (eq_iff (code_of x) c).1 e), (apart_iff c xs).0 (ground arith)),
    λ h. elim (Bool-cases (code_of x == c)) [
      | inl here ↦ absurd (h.0 ((eq_iff (code_of x) c).0 here))
      | inr there ↦ ground (arith, there, (apart_iff c xs).1 h.1)
    ],
  )

  different_iff : (xs : List A) → Distinct (codes code_of is_fine xs) ↔ AreDifferent code_of xs
  different_iff [] = (λ h. tt, λ h. tt)
  different_iff (x ∷ xs) = (
    λ h. ((apart_iff (code_of x) xs).0 h.0, (different_iff xs).0 h.1),
    λ h. ((apart_iff (code_of x) xs).1 h.0, (different_iff xs).1 h.1),
  )

  filled_iff : (xs : List A) → (is_filled_list code_of is_fine xs ≡ true) ↔ (xs ≢ [])
  filled_iff [] = (λ h. cc, λ h. absurd (h refl))
  filled_iff (x ∷ xs) = (λ h e. cc, λ h. refl)

  IsGroup-iff :
      (Right : A → Type 0)
      → ((x : A) → (is_fine x ≡ true) ↔ Right x)
      → (xs : List A) → IsGroup code_of is_fine xs ↔ IsGroupOf Right code_of xs
  IsGroup-iff Right same xs = (
    λ g. record {
      filled = (filled_iff xs).0 g.filled;
      right = (all_iff is_fine Right same xs).0 g.fine;
      different = (different_iff xs).0 g.distinct;
    },
    λ g. record {
      filled = (filled_iff xs).1 g.filled;
      fine = (all_iff is_fine Right same xs).1 g.right;
      distinct = (different_iff xs).1 g.different;
    },
  )

IsCatalog-iff : (v : Values) → Passes v ↔ IsCatalog v
IsCatalog-iff v =
    let entries = IsGroup-iff Entry.code is_entry IsEntry is_entry_iff in
    let models = IsGroup-iff (λ m. m.entry.code) is_model IsModel is_model_iff in
    let products =
      all_iff (λ m. has (Model.product_code m) (codes Entry.code is_entry v.products))
        (λ m. Some (λ e. Entry.code e ≡ Model.product_code m) v.products)
        (λ m. has_iff Entry.code is_entry m.product_code v.products) v.models in
    (
      λ c. record {
        products = (entries v.products).0 c.products;
        materials = (entries v.materials).0 c.materials;
        models = (models v.models).0 c.models;
        techniques = (entries v.techniques).0 c.techniques;
        referenced = products.0 c.referenced;
      },
      λ c. record {
        products = (entries v.products).1 c.products;
        materials = (entries v.materials).1 c.materials;
        models = (models v.models).1 c.models;
        techniques = (entries v.techniques).1 c.techniques;
        referenced = products.1 c.referenced;
      },
    )

-- Values pass `normalizeCatalogValues`, and unchanged, exactly when each of the four groups has
-- entries, every code has 2 to 32 characters which are capitals without marks, digits or hyphens,
-- every name has a character and no white space at its ends, no two entries of a group have one
-- code, and every model has the code of a product of the catalog.
pub normalize_catalog_values_iff : (v : Values) → (normalize_catalog_values v ≡ ok v) ↔ IsCatalog v
normalize_catalog_values_iff v = (
  λ h. (IsCatalog-iff v).0 (normalize-eq-ok v v h).0,
  λ c. normalize-ok v ((IsCatalog-iff v).1 c),
)
