-- ===== src/Catalog/Entries.antt =====
-- Which values `normalizeCatalogValues` lets through, by its checks of an entry.
use crm_silmer.Base.{
  ok, >>=-eq-ok, guard-eq-ok, all, String, ◌≡◌, refl, sym, ◌∙◌, Bool, true, false, not, ◌&&◌, ◌||◌,
  List, [], ◌∷◌, arith, eq_iff,
}
use crm_silmer.Catalog.{
  Entry, Model, Values, is_entry, is_model, has, validate_from, is_filled_list, validate_entries,
  normalize_catalog_values,
}

abbrev pub Distinct : List String → Type 0
Distinct [] = Unit
Distinct (c ∷ cs) = (has c cs ≡ false) × Distinct cs

module _ {A : Type 0} (code_of : A → String) (is_fine : A → Bool) where
  abbrev pub codes : List A → List String
  codes [] = []
  codes (x ∷ xs) = code_of x ∷ codes xs

  -- There are entries, each is fine, and no two have one code.
  pub record IsGroup (xs : List A) : Type 0 where
    pub filled : is_filled_list code_of is_fine xs ≡ true
    pub fine : all is_fine xs ≡ true
    pub distinct : Distinct (codes xs)

  abbrev avoids : List String → List A → Bool
  avoids cs xs = all (λ x. not (has (code_of x) cs)) xs

  avoids-cons :
      (c : String) (cs : List String) (xs : List A)
      → avoids (c ∷ cs) xs ≡ (not (has c (codes xs)) && avoids cs xs)
  avoids-cons c cs [] = refl
  avoids-cons c cs (x ∷ xs) =
      ground (arith, avoids-cons c cs xs, eq_iff c (code_of x), eq_iff (code_of x) c)

  validate_from-eq-ok :
      (xs : List A) (cs r : List String)
      → validate_from code_of is_fine xs cs ≡ ok r
      → (all is_fine xs ≡ true)
        × Distinct (codes xs)
        × (avoids cs xs ≡ true)
        × ((c : String) → has c r ≡ (has c (codes xs) || has c cs))
  unfolding validate_from
  validate_from-eq-ok [] cs r h = (refl, tt, refl, λ c. ground arith)
  validate_from-eq-ok (x ∷ xs) cs r h =
      let (test, h1) = guard-eq-ok (is_fine x && not (has (code_of x) cs)) _ _ h in
      let (fine, distinct, apart, found) = validate_from-eq-ok xs (code_of x ∷ cs) r h1 in
      let split = avoids-cons (code_of x) cs xs in
      (
        ground (arith, test, fine),
        (ground (arith, split, apart), distinct),
        ground (arith, split, apart, test),
        λ c. ground (arith, found c),
      )

  validate_from-ok :
      (xs : List A) (cs : List String)
      → all is_fine xs ≡ true
      → Distinct (codes xs)
      → avoids cs xs ≡ true
      → (r : List String) × (validate_from code_of is_fine xs cs ≡ ok r)
  unfolding validate_from
  validate_from-ok [] cs fine distinct apart = (cs, refl)
  validate_from-ok (x ∷ xs) cs fine distinct apart =
      let split = avoids-cons (code_of x) cs xs in
      let (r, e) =
        validate_from-ok xs (code_of x ∷ cs) (ground arith) distinct.1
          (ground (arith, split, distinct.0)) in
      (r, ground (arith, e))

  avoids-nil : (xs : List A) → avoids [] xs ≡ true
  avoids-nil [] = refl
  avoids-nil (x ∷ xs) = ground (arith, avoids-nil xs)

  pub validate_entries-eq-ok :
      (xs : List A) (r : List String)
      → validate_entries code_of is_fine xs ≡ ok r
      → IsGroup xs × ((c : String) → has c r ≡ has c (codes xs))
  unfolding validate_entries
  validate_entries-eq-ok xs r h =
      let (filled, h1) = guard-eq-ok (is_filled_list code_of is_fine xs) _ _ h in
      let (fine, distinct, apart, found) = validate_from-eq-ok xs [] r h1 in
      (record { filled = filled; fine = fine; distinct = distinct }, λ c. ground (arith, found c))

  pub validate_entries-ok :
      (xs : List A) → IsGroup xs → (r : List String) × (validate_entries code_of is_fine xs ≡ ok r)
  unfolding validate_entries
  validate_entries-ok xs g =
      let (r, e) = validate_from-ok xs [] g.fine g.distinct (avoids-nil xs) in
      (r, ground (arith, e, g.filled))

-- The four groups, and a product for each model.
pub record Passes (v : Values) : Type 0 where
  pub products : IsGroup Entry.code is_entry v.products
  pub materials : IsGroup Entry.code is_entry v.materials
  pub models : IsGroup (λ m. m.entry.code) is_model v.models
  pub techniques : IsGroup Entry.code is_entry v.techniques
  pub referenced :
      all (λ m. has (Model.product_code m) (codes Entry.code is_entry v.products)) v.models ≡ true

all-same : {A : Type 0} (p q : A → Bool) (xs : List A) → ((x : A) → p x ≡ q x) → all p xs ≡ all q xs
all-same p q [] h = refl
all-same p q (x ∷ xs) h = ground (arith, h x, all-same p q xs h)

pub normalize-eq-ok : (v w : Values) → normalize_catalog_values v ≡ ok w → Passes v × (w ≡ v)
unfolding normalize_catalog_values
normalize-eq-ok v w h =
    let (p, hp, h1) = >>=-eq-ok (validate_entries Entry.code is_entry v.products) _ h in
    let (a, ha, h2) = >>=-eq-ok (validate_entries Entry.code is_entry v.materials) _ h1 in
    let (m, hm, h3) = >>=-eq-ok (validate_entries (λ m. m.entry.code) is_model v.models) _ h2 in
    let (t, ht, h4) = >>=-eq-ok (validate_entries Entry.code is_entry v.techniques) _ h3 in
    let (test, h5) = guard-eq-ok (all (λ m. has (Model.product_code m) p) v.models) _ _ h4 in
    let (products, found) = validate_entries-eq-ok Entry.code is_entry v.products p hp in
    (
      record {
        products = products;
        materials = (validate_entries-eq-ok Entry.code is_entry v.materials a ha).0;
        models = (validate_entries-eq-ok (λ m. m.entry.code) is_model v.models m hm).0;
        techniques = (validate_entries-eq-ok Entry.code is_entry v.techniques t ht).0;
        referenced = sym (all-same _ _ v.models (λ m. found m.product_code)) ∙ test;
      },
      ground (arith, h5),
    )

pub normalize-ok : (v : Values) → Passes v → normalize_catalog_values v ≡ ok v
unfolding normalize_catalog_values
normalize-ok v c =
    let (p, hp) = validate_entries-ok Entry.code is_entry v.products c.products in
    let (a, ha) = validate_entries-ok Entry.code is_entry v.materials c.materials in
    let (m, hm) = validate_entries-ok (λ m. m.entry.code) is_model v.models c.models in
    let (t, ht) = validate_entries-ok Entry.code is_entry v.techniques c.techniques in
    let found = (validate_entries-eq-ok Entry.code is_entry v.products p hp).1 in
    let e = all-same (λ m. has (Model.product_code m) p) _ v.models (λ m. found m.product_code) in
    rw (hp, ha, hm, ht, e, c.referenced) refl
