-- ===== src/Catalog/Selections.antt =====
-- Selections from the published versions.
use crm_silmer.Base.{
  text_eq, nat_eq, ◌==◌, Bool-cases, ok, >>=-eq-ok, guard-eq-ok, all, find, find_sound, All, values,
  String, ◌≡◌, refl, subst, inl, inr, Bool, true, ◌&&◌, some, List, [], ◌∷◌, arith, eq_iff,
}
use crm_silmer.Catalog.{
  Entry, Model, is_non_empty, is_entry, is_model, has, normalize_catalog_values, Version, is_number,
  create_published_version, Selection, SelectionInput, create_selection,
}
use crm_silmer.Catalog.Service.{find_by_id, select}
use crm_silmer.Catalog.Versions.{AreVersions}
use crm_silmer.Catalog.Entries.{codes, Passes, normalize-eq-ok, normalize-ok}

find-All {ℓ κ} :
    {A : Type ℓ} (P : A → Type κ) (q : A → Bool) (xs : List A) (x : A)
    → All P xs
    → find q xs ≡ some x
    → P x
find-All P q [] x h e = cc
find-All P q (y ∷ xs) x h e = elim (Bool-cases (q y)) [
  | inl here ↦ subst P (ground arith) h.0
  | inr there ↦ find-All P q xs x h.1 (ground arith)
]

find-all :
    {A : Type 0} (p q : A → Bool) (xs : List A) {x : A}
    → all p xs ≡ true
    → find q xs ≡ some x
    → p x ≡ true
find-all p q [] h e = cc
find-all p q (y ∷ xs) {x} h e = ground (arith, find-all p q xs {x = x})

module _ {A : Type 0} (code_of : A → String) (is_fine : A → Bool) where
  -- A code of a group finds an entry with that code.
  find-has :
      (c : String) (xs : List A)
      → has c (codes code_of is_fine xs) ≡ true
      → (x : A) × (find (λ e. code_of e == c) xs ≡ some x) × (code_of x ≡ c)
  find-has c [] h = cc
  find-has c (x ∷ xs) h = elim (Bool-cases (code_of x == c)) [
    | inl here ↦ (x, ground arith, ground (arith, eq_iff (code_of x) c))
    | inr there ↦
        let (y, found, same) = find-has c xs (ground arith) in (y, ground (arith, found), same)
  ]

entry-IsNonEmpty : (e : Entry) → is_entry e ≡ true → is_non_empty e.code ≡ true
unfolding is_entry
entry-IsNonEmpty e h = ground arith

model-IsNonEmpty : (m : Model) → is_model m ≡ true → is_non_empty m.entry.code ≡ true
unfolding is_model
model-IsNonEmpty m h = entry-IsNonEmpty m.entry (ground arith)

-- A version that the validation made: its values, its id and its number are fine.
made-Passes :
    (v : Version)
    → create_published_version v ≡ ok v
    → Passes v.values × (is_non_empty v.id ≡ true) × (is_number v.number ≡ true)
unfolding create_published_version
made-Passes v h =
    let (test, h1) =
      guard-eq-ok
        (is_non_empty v.id
          && is_non_empty v.published_by
          && is_non_empty v.reason
          && is_number v.number)
        _ _ h in
    let (values, made, h2) = >>=-eq-ok (normalize_catalog_values v.values) _ h1 in
    ((normalize-eq-ok v.values values made).0, ground arith, ground arith)

-- What a selection holds for its input.
pub record Selects (v : Version) (input : SelectionInput) (s : Selection) : Type 0 where
  pub version_id : s.catalog_version_id ≡ v.id
  pub version_number : s.catalog_version_number ≡ v.number
  pub model : s.snapshot.model.entry.code ≡ input.model_code
  pub material : s.snapshot.material.code ≡ input.material_code
  pub technique : s.snapshot.technique.code ≡ input.technique_code
  pub product : s.snapshot.product.code ≡ s.snapshot.model.product_code

create_selection-ok :
    (v : Version) (input : SelectionInput)
    → Passes v.values
    → is_non_empty v.id ≡ true
    → is_number v.number ≡ true
    → is_non_empty input.catalog_version_id ≡ true
    → has input.model_code (codes (λ m. m.entry.code) is_model v.values.models) ≡ true
    → has input.material_code (codes Entry.code is_entry v.values.materials) ≡ true
    → has input.technique_code (codes Entry.code is_entry v.values.techniques) ≡ true
    → (s : Selection) × (create_selection v input ≡ ok s) × Selects v input s
unfolding create_selection
create_selection-ok v input c id number version_id hm ha ht =
    let (m, fm, em) = find-has (λ m. m.entry.code) is_model input.model_code v.values.models hm in
    let (a, fa, ea) = find-has Entry.code is_entry input.material_code v.values.materials ha in
    let (t, ft, et) = find-has Entry.code is_entry input.technique_code v.values.techniques ht in
    let referenced = find-all _ _ v.values.models c.referenced fm in
    let (p, fp, ep) = find-has Entry.code is_entry m.product_code v.values.products referenced in
    let nm = model-IsNonEmpty m (find-all is_model _ v.values.models c.models.fine fm) in
    let na = entry-IsNonEmpty a (find-all is_entry _ v.values.materials c.materials.fine fa) in
    let nt = entry-IsNonEmpty t (find-all is_entry _ v.values.techniques c.techniques.fine ft) in
    let test : is_non_empty input.catalog_version_id
          && is_non_empty input.material_code
          && is_non_empty input.model_code
          && is_non_empty input.technique_code
        ≡ true =
      ground (arith, nm, na, nt, em, ea, et) in
    (
      record {
        catalog_version_id = v.id;
        catalog_version_number = v.number;
        snapshot = record { material = a; model = m; product = p; technique = t };
      },
      rw (id, number, normalize-ok v.values c, test, fm, fa, ft, fp) refl,
      record {
        version_id = refl;
        version_number = refl;
        model = em;
        material = ea;
        technique = et;
        product = ep;
      },
    )

-- From the published versions, the codes of a model, a material and a technique of the version with
-- the given id select it: the selection names the version and has the entries with those codes and
-- the model's own product.
pub select-ok :
    (vs : List Version) (v : Version) (input : SelectionInput)
    → AreVersions vs
    → find (λ w. Version.id w == input.catalog_version_id) vs ≡ some v
    → has input.model_code (codes (λ m. m.entry.code) is_model v.values.models) ≡ true
    → has input.material_code (codes Entry.code is_entry v.values.materials) ≡ true
    → has input.technique_code (codes Entry.code is_entry v.values.techniques) ≡ true
    → (s : Selection) × (select input vs ≡ ok s) × Selects v input s
unfolding select find_by_id
select-ok vs v input a found hm ha ht =
    let made = find-All (λ w. create_published_version w ≡ ok w) _ vs v a.made found in
    let (c, id, number) = made-Passes v made in
    let same = find_sound _ vs found in
    let version_id : is_non_empty input.catalog_version_id ≡ true =
      ground (arith, same, id, eq_iff v.id input.catalog_version_id) in
    let (s, selected, holds) = create_selection-ok v input c id number version_id hm ha ht in
    (s, rw (version_id, found, made, selected) refl, holds)
