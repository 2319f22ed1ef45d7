-- ===== src/Qualification/Items.antt =====
-- `applyPatch`: the order and the items.
use crm_silmer.Base.{
  text_eq, nat_eq, ◌==◌, if◌then◌else◌, is_some, Result, ok, guard, ◌>>◌, any, all, find, Table,
  lookup, put, trim, text_join, decimal, value, ℕ, suc, String, Bool, not, ◌||◌, Option, none, some,
  List, [], ◌∷◌, map,
}
use crm_silmer.Qualification.{
  QualificationError, invalid, Entry, Snapshot, OrderState, Fabric, GradeLine, Item, File,
  piece_colors,
}
use crm_silmer.Qualification.Patches.{LinePatch, ItemPatch, OrderPatch, Texts}

abbrev pub or_else {ℓ} : {A : Type ℓ} → Option A → Option A → Option A
or_else none b = b
or_else (some a) b = some a

abbrev pub map_option {ℓ κ} : {A : Type ℓ} {B : Type κ} → (A → B) → Option A → Option B
map_option f none = none
map_option f (some a) = some (f a)

abbrev pub value_or {ℓ} : {A : Type ℓ} → A → Option A → A
value_or a none = a
value_or a (some b) = b

-- `map` with the index of each element.
abbrev pub map_from {ℓ κ} : {A : Type ℓ} {B : Type κ} → (ℕ → A → B) → ℕ → List A → List B
map_from f n [] = []
map_from f n (x ∷ xs) = f n x ∷ map_from f (suc n) xs

-- A text that is there and not empty.
abbrev pub filled : Option String → Option String
filled none = none
filled (some s) = if s == "" then none else some s

abbrev pub dotted : List String → String
dotted [] = ""
dotted (w ∷ []) = w
dotted (w ∷ v ∷ ws) = text_join "." w (dotted (v ∷ ws))

-- `assertAtomicBundle`: all of the fields or none.
abbrev pub is_atomic : List Bool → Bool
is_atomic present = all (λ b. b) present || not (any (λ b. b) present)

module _ (texts : Texts) (deal_id : String) where
  -- `#encrypt`
  abbrev pub encrypt : String → List String → String
  encrypt value field = texts.encrypt value (text_join ":" deal_id (dotted field))

  abbrev pub encrypted : List String → Option String → Option String
  encrypted field = map_option λ value. encrypt value field

  abbrev pub patch_order : Option OrderPatch → Option OrderState → Option OrderState
  patch_order none order = order
  patch_order (some p) order =
      let o =
        value_or
          (record { commercial_intent = none; customer_envelope = none; name_envelope = none })
          order in
      some (record {
        commercial_intent = or_else p.commercial_intent o.commercial_intent;
        customer_envelope =
            or_else (encrypted ("order" ∷ "customer" ∷ []) p.customer) o.customer_envelope;
        name_envelope = or_else (encrypted ("order" ∷ "name" ∷ []) p.name) o.name_envelope;
      })

  abbrev pub put_colors : String → Table String → List String → Table String → Table String
  unfolding lookup put
  put_colors id patch [] colors = colors
  put_colors id patch (k ∷ ks) colors = put_colors id patch ks (elim (lookup k patch) [
    | none ↦ colors
    | some c ↦ put k (encrypt c ("items" ∷ id ∷ "colors" ∷ k ∷ [])) colors
  ])

  abbrev pub patched_line : String → ℕ → LinePatch → GradeLine
  unfolding trim decimal
  patched_line id n l =
      let at : String → List String = λ name. "items" ∷ id ∷ "grade" ∷ decimal n ∷ name ∷ [] in
      record {
        duplicate_size_reason_envelope =
            encrypted (at "duplicateSizeReason") (filled l.duplicate_size_reason);
        quantity = l.quantity;
        size_envelope = encrypt l.size (at "size");
        size_lookup = texts.lower_case (trim l.size);
      }

  abbrev pub patched_fabrics : Snapshot → List String → List Fabric
  patched_fabrics snapshot codes =
      map (λ c. record { code = c; snapshot = find (λ m. Entry.code m == c) snapshot.materials })
        codes

  abbrev pub with_snapshot : ItemPatch → Option Snapshot → Item → Item
  with_snapshot p none i = i
  with_snapshot p (some snapshot) i = record i {
    catalog_snapshot = some snapshot;
    model_code = p.model_code;
    product_code = p.product_code;
    fabrics = value_or i.fabrics (map_option (patched_fabrics snapshot) p.fabrics);
  }

  unfoldable pub patched_item : ItemPatch → Option Snapshot → Item → Item
  unfolding put_colors patched_line
  patched_item p snapshot i =
      let j = with_snapshot p snapshot i in
      record j {
        id = i.id;
        estimated_quantity = or_else p.estimated_quantity i.estimated_quantity;
        colors =
            value_or i.colors (map_option (λ c. put_colors i.id c piece_colors i.colors) p.colors);
        grade = value_or i.grade (map_option (map_from (patched_line i.id) 0) p.grade);
      }

  abbrev pub new_item : String → Item
  new_item id = record {
    id = id;
    catalog_snapshot = none;
    colors = [];
    estimated_quantity = none;
    fabrics = [];
    grade = [];
    model_code = none;
    product_code = none;
  }

  -- The first item with the id changes where it stands; a new one goes to the end.
  unfoldable pub place : ItemPatch → Option Snapshot → List Item → List Item
  place p snapshot [] = patched_item p snapshot (new_item p.id) ∷ []
  place p snapshot (i ∷ items) =
      if i.id == p.id then patched_item p snapshot i ∷ items else i ∷ place p snapshot items

  -- `splice` of the first item with the id.
  unfoldable pub remove_item : String → List Item → List Item
  remove_item id [] = []
  remove_item id (i ∷ items) = if i.id == id then items else i ∷ remove_item id items

  abbrev pub is_item_atomic : ItemPatch → Bool
  is_item_atomic p = is_atomic (
      is_some p.catalog_version_id
      ∷ is_some p.product_code
      ∷ is_some p.model_code
      ∷ is_some p.fabrics
      ∷ [])

  unfoldable pub patch_items :
      List File
      → List (ItemPatch × Option Snapshot)
      → List Item
      → Result QualificationError (List Item)
  patch_items files [] items = ok items
  patch_items files ((p, snapshot) ∷ ps) items =
      if p.removes
      then (do
        guard (not (any (λ f. File.item_id f == p.id) files)) invalid
        patch_items files ps (remove_item p.id items))
      else (do guard (is_item_atomic p) invalid; patch_items files ps (place p snapshot items))
