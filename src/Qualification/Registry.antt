-- ===== src/Qualification/Registry.antt =====
-- modules/qualification/src/field-registry.js: the paths of the fields, by the texts between their
-- dots, and where an assessment of a field applies.
use Prim.Native.String.{len}
use Prim.Native.Char.{code}
use crm_silmer.Base.{
  leb, text_eq, nat_eq, ◌==◌, if◌then◌else◌, is_some, any, Table, lookup, text_join, ℕ, String,
  Bool, true, false, not, ◌&&◌, ◌||◌, Option, none, some, List, [], ◌∷◌,
}
use crm_silmer.Qualification.{
  Item, not_applicable, Artwork, Mode, delivery, pickup, Logistics, State, piece_colors,
}

pub data Stage : Type 0 where
  produto especificacao estampa logistica : Stage

pub record Definition : Type 0 where
  pub path : String
  pub stage : Stage
  pub order : ℕ
  pub required_for_gate : Bool
  pub allows_explicit_na : Bool
  pub item_id : Option String

pub record Row : Type 0 where
  pub stage : Stage
  pub order : ℕ
  pub required_for_gate : Bool
  pub allows_explicit_na : Bool

abbrev row : Stage → ℕ → Bool → Row
row stage order na = record {
  stage = stage;
  order = order;
  required_for_gate = true;
  allows_explicit_na = na;
}

-- `STATIC`
abbrev pub static_rows : Table Row
static_rows =
    ("order.customer", row produto 10 false)
    ∷ ("order.name", row produto 20 false)
    ∷ ("order.commercialIntent", row produto 30 false)
    ∷ ("items", row produto 40 false)
    ∷ ("artwork", row estampa 5 true)
    ∷ ("artwork.status", row estampa 10 false)
    ∷ ("artwork.responsibility", row estampa 20 false)
    ∷ ("artwork.technique", row estampa 30 false)
    ∷ ("artwork.locations", row estampa 40 false)
    ∷ ("artwork.files", row estampa 50 false)
    ∷ ("artwork.colors", row estampa 60 true)
    ∷ ("logistics.desiredDate", row logistica 10 false)
    ∷ ("logistics.purpose", row logistica 20 false)
    ∷ ("logistics.purchaseProfile", row logistica 30 false)
    ∷ ("logistics.mode", row logistica 40 false)
    ∷ ("logistics.city", row logistica 50 false)
    ∷ ("logistics.address", row logistica 60 false)
    ∷ ("logistics.pickupLocation", row logistica 70 false)
    ∷ []

-- The texts between the dots of a path.
abbrev prepend : String → List String → List String
prepend c [] = c ∷ []
prepend c (w ∷ ws) = text_join "" c w ∷ ws

unfoldable pub split_dots : String → List String
split_dots String.[] = String.[] ∷ []
split_dots (String.◌∷◌ c s) =
    let rest = split_dots s in
    if code c == 46 then String.[] ∷ rest else prepend (String.◌∷◌ c String.[]) rest

abbrev pub all_codes : (ℕ → Bool) → String → Bool
all_codes p String.[] = true
all_codes p (String.◌∷◌ c s) = p (code c) && all_codes p s

abbrev pub is_digit : ℕ → Bool
is_digit c = leb 48 c && leb c 57

abbrev pub is_alphanumeric : ℕ → Bool
is_alphanumeric c = is_digit c || leb 65 c && leb c 90 || leb 97 c && leb c 122

-- `ID`
abbrev pub is_id : String → Bool
is_id String.[] = false
is_id (String.◌∷◌ c s) =
    is_alphanumeric (code c)
    && all_codes (λ d. is_alphanumeric d || d == 95 || d == 45) s
    && leb (len s) 63

-- `INDEX`
abbrev pub is_index : String → Bool
is_index String.[] = false
is_index (String.◌∷◌ c s) =
    is_digit (code c) && all_codes is_digit s && (if code c == 48 then s == "" else leb (len s) 3)

abbrev of_item : String → Stage → ℕ → Bool → String → Option Definition
of_item path stage order na id =
    if is_id id
    then some (record {
      path = path;
      stage = stage;
      order = order;
      required_for_gate = true;
      allows_explicit_na = na;
      item_id = some id;
    })
    else none

abbrev item_field : String → String → String → Option Definition
item_field path id name =
    if name == "product"
    then of_item path produto 50 false id
    else if name == "model"
    then of_item path produto 60 false id
    else if name == "estimatedQuantity"
    then of_item path produto 70 false id
    else if name == "fabrics"
    then of_item path especificacao 10 false id
    else none

abbrev item_part : String → (id group name : String) → Option Definition
item_part path id group name =
    if group == "colors" && any (λ k. k == name) piece_colors
    then of_item path especificacao 20 true id
    else if group == "grade" && name == "total"
    then of_item path especificacao 60 false id
    else none

abbrev grade_part : String → (id group index name : String) → Option Definition
grade_part path id group index name =
    if group == "grade" && is_index index && (name == "size" || name == "quantity")
    then of_item path especificacao 40 false id
    else if group == "grade" && is_index index && name == "duplicateSizeReason"
    then of_item path especificacao 50 false id
    else none

abbrev observation : String → String → Option Definition
observation path index =
    if is_index index
    then some (record {
      path = path;
      stage = logistica;
      order = 90;
      required_for_gate = false;
      allows_explicit_na = false;
      item_id = none;
    })
    else none

-- `DYNAMIC`
abbrev pub dynamic_definition : String → List String → Option Definition
dynamic_definition path (root ∷ index ∷ []) =
    if root == "observations" then observation path index else none
dynamic_definition path (root ∷ id ∷ name ∷ []) =
    if root == "items" then item_field path id name else none
dynamic_definition path (root ∷ id ∷ group ∷ name ∷ []) =
    if root == "items" then item_part path id group name else none
dynamic_definition path (root ∷ id ∷ group ∷ index ∷ name ∷ []) =
    if root == "items" then grade_part path id group index name else none
dynamic_definition path parts = none

abbrev static_or : String → Option Row → Option Definition
static_or path (some r) = some (record {
  path = path;
  stage = r.stage;
  order = r.order;
  required_for_gate = r.required_for_gate;
  allows_explicit_na = r.allows_explicit_na;
  item_id = none;
})
static_or path none = dynamic_definition path (split_dots path)

-- `resolveFieldDefinition`
unfoldable pub resolve_field : String → Option Definition
unfolding split_dots
resolve_field path = if leb (len path) 160 then static_or path (lookup path static_rows) else none

abbrev pub has_item : String → List Item → Bool
has_item id items = any (λ i. Item.id i == id) items

abbrev is_item_there : Option String → List Item → Bool
is_item_there none items = true
is_item_there (some id) items = has_item id items

abbrev pub is_not_applicable : Option Artwork → Bool
is_not_applicable none = false
is_not_applicable (some a) = elim a.status [ some not_applicable ↦ true | _ ↦ false ]

abbrev pub has_mode : Mode → Option Logistics → Bool
has_mode mode none = false
has_mode delivery (some l) = elim l.mode [ some delivery ↦ true | _ ↦ false ]
has_mode pickup (some l) = elim l.mode [ some pickup ↦ true | _ ↦ false ]

abbrev pub starts_with : String → String → Bool
starts_with String.[] s = true
starts_with (String.◌∷◌ c p) String.[] = false
starts_with (String.◌∷◌ c p) (String.◌∷◌ d s) = code c == code d && starts_with p s

-- `isAssessmentApplicable`
unfoldable pub is_applicable : Definition → State → Bool
is_applicable d s =
    is_item_there d.item_id s.items
    && (if d.path == "artwork"
        then is_not_applicable s.artwork
        else if starts_with "artwork." d.path && not (d.path == "artwork.status")
        then is_some s.artwork && not (is_not_applicable s.artwork)
        else if d.path == "logistics.city" || d.path == "logistics.address"
        then has_mode delivery s.logistics
        else if d.path == "logistics.pickupLocation"
        then has_mode pickup s.logistics
        else true)
