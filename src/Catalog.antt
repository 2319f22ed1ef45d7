-- ===== src/Catalog.antt =====
-- modules/catalog/src/domain/catalog-version.js: the values of a catalog version, their validation,
-- and the selection of a model, a material and a technique from a version. The shape of the values,
-- which `assertRecord` and `assertExactKeys` check, is in the types.
pub mod Entries
pub mod Valid
pub mod Service
pub mod Versions
pub mod Selections
mod Tests
use Prim.Native.Char.{code}
use crm_silmer.Base.{
  leb, text_eq, nat_eq, ◌==◌, Result, ok, guard, or_throw, ◌>>=◌, ◌>>◌, any, all, find, values,
  trim, ℕ, suc, ◌*◌, String, Bool, true, false, not, ◌&&◌, ◌||◌, Option, List, [], ◌∷◌,
}

pub data CatalogError : Type 0 where
  validation_error forbidden_error conflict_error port_error : CatalogError

abbrev pub Checked : Type 0 → Type 0
Checked A = Result CatalogError A

pub record Entry : Type 0 where
  pub code : String
  pub name : String

pub record Model : Type 0 where
  pub entry : Entry
  pub open entry use *
  pub product_code : String

pub record Values : Type 0 where
  pub products : List Entry
  pub models : List Model
  pub materials : List Entry
  pub techniques : List Entry

-- `assertNonEmptyString`
unfoldable pub is_non_empty : String → Bool
unfolding trim
is_non_empty value = not (trim value == "")

-- `[A-Z0-9-]`
abbrev pub is_code_char : ℕ → Bool
is_code_char c = leb 65 c && leb c 90 || leb 48 c && leb c 57 || c == 45

abbrev pub all_code_chars : String → Bool
all_code_chars String.[] = true
all_code_chars (String.◌∷◌ c s) = is_code_char (code c) && all_code_chars s

abbrev pub characters : String → ℕ
characters String.[] = 0
characters (String.◌∷◌ c s) = suc (characters s)

-- `/^[A-Z0-9-]{2,32}$/u`
unfoldable pub is_code : String → Bool
is_code s = leb 2 (characters s) && leb (characters s) 32 && all_code_chars s

unfoldable pub is_entry : Entry → Bool
unfolding is_non_empty is_code trim
is_entry e = is_non_empty e.code && is_non_empty e.name && is_code e.code && e.name == trim e.name

unfoldable pub is_model : Model → Bool
unfolding is_entry is_non_empty is_code
is_model m = is_entry m.entry && is_non_empty m.product_code && is_code m.product_code

-- `Set.has`
abbrev pub has : String → List String → Bool
has c codes = any (λ d. d == c) codes

module _ {A : Type 0} (code_of : A → String) (is_fine : A → Bool) where
  unfoldable pub validate_from : List A → List String → Checked (List String)
  validate_from [] codes = ok codes
  validate_from (x ∷ xs) codes = do
    guard (is_fine x && not (has (code_of x) codes)) validation_error
    validate_from xs (code_of x ∷ codes)

  abbrev pub is_filled_list : List A → Bool
  is_filled_list [] = false
  is_filled_list (x ∷ xs) = true

  -- `validateEntries`: the codes, when there are entries and none is refused.
  unfoldable pub validate_entries : List A → Checked (List String)
  unfolding validate_from
  validate_entries xs = do guard (is_filled_list xs) validation_error; validate_from xs []

unfoldable pub normalize_catalog_values : Values → Checked Values
unfolding validate_entries is_entry is_model
normalize_catalog_values values = do
  product_codes ← validate_entries Entry.code is_entry values.products
  materials ← validate_entries Entry.code is_entry values.materials
  models ← validate_entries (λ m. m.entry.code) is_model values.models
  techniques ← validate_entries Entry.code is_entry values.techniques
  guard (all (λ m. has (Model.product_code m) product_codes) values.models) validation_error
  ok values

pub record Version : Type 0 where
  pub id : String
  pub number : ℕ
  pub published_at : ℕ
  pub published_by : String
  pub reason : String
  pub values : Values

-- `Number.isSafeInteger` and the lower bound.
abbrev pub is_number : ℕ → Bool
is_number n = leb 1 n && leb n 9007199254740991

unfoldable pub create_published_version : Version → Checked Version
unfolding is_non_empty normalize_catalog_values trim
create_published_version input = do
  guard
      (is_non_empty input.id
        && is_non_empty input.published_by
        && is_non_empty input.reason
        && is_number input.number)
      validation_error
  values ← normalize_catalog_values input.values
  ok (record input { reason = trim input.reason; values = values })

pub record Snapshot : Type 0 where
  pub material : Entry
  pub model : Model
  pub product : Entry
  pub technique : Entry

pub record Selection : Type 0 where
  pub catalog_version_id : String
  pub catalog_version_number : ℕ
  pub snapshot : Snapshot

pub record SelectionInput : Type 0 where
  pub catalog_version_id : String
  pub material_code : String
  pub model_code : String
  pub technique_code : String

abbrev pub entry_with : String → List Entry → Option Entry
entry_with c entries = find (λ e. Entry.code e == c) entries

unfoldable pub create_selection : Version → SelectionInput → Checked Selection
unfolding is_non_empty normalize_catalog_values
create_selection version input = do
  guard (is_non_empty version.id && is_number version.number) validation_error
  values ← normalize_catalog_values version.values
  guard
      (is_non_empty input.catalog_version_id
        && is_non_empty input.material_code
        && is_non_empty input.model_code
        && is_non_empty input.technique_code)
      validation_error
  model ← or_throw (find (λ m. m.entry.code == input.model_code) values.models) validation_error
  material ← or_throw (entry_with input.material_code values.materials) validation_error
  technique ← or_throw (entry_with input.technique_code values.techniques) validation_error
  product ← or_throw (entry_with model.product_code values.products) validation_error
  ok (record {
    catalog_version_id = version.id;
    catalog_version_number = version.number;
    snapshot = record {
      material = material;
      model = model;
      product = product;
      technique = technique;
    };
  })
