-- ===== src/Qualification/Gates.antt =====
-- The gates: `gateBlockers`, the latest assessments and `evaluateQualificationState`. The order of
-- `localeCompare` is the language's own and is a parameter.
use crm_silmer.Base.{
  leb, text_eq, nat_eq, ◌==◌, if◌then◌else◌, is_filled, any, all, keep, Table, lookup, put, values,
  text_join, ℕ, ◌+◌, String, Bool, true, false, not, ◌&&◌, ◌||◌, Option, none, some, List, [], ◌∷◌,
  ◌++◌,
}
use crm_silmer.Qualification.{
  OrderState, GradeLine, Item, ready, Artwork, Mode, delivery, pickup, Logistics, AssessmentStatus,
  open_status, divergent, set_aside, Assessment, State, piece_colors,
}
use crm_silmer.Qualification.Registry.{
  Stage, produto, especificacao, estampa, logistica, Definition, split_dots, resolve_field,
  is_not_applicable, starts_with, is_applicable,
}

abbrev pub unless : Bool → String → List String
unless true path = []
unless false path = path ∷ []

-- `items.${id}.…`
abbrev pub item_path : Item → String → String
item_path i name = text_join "." (text_join "." "items" i.id) name

abbrev pub is_none_left {ℓ} : {A : Type ℓ} → List A → Bool
is_none_left [] = true
is_none_left (x ∷ xs) = false

-- `Number.isSafeInteger`, and at least one.
abbrev pub is_count : ℕ → Bool
is_count n = leb 1 n && leb n 9007199254740991

abbrev has_count : Option ℕ → Bool
has_count none = false
has_count (some n) = is_count n

abbrev order_blockers : Option OrderState → List String
order_blockers none = "order.customer" ∷ "order.name" ∷ "order.commercialIntent" ∷ []
order_blockers (some o) =
    unless (is_filled o.customer_envelope) "order.customer"
    ++ (unless (is_filled o.name_envelope) "order.name"
        ++ unless (elim o.commercial_intent [ some true ↦ true | _ ↦ false ])
            "order.commercialIntent")

abbrev product_blockers : Item → List String
product_blockers i =
    unless (is_filled i.product_code) (item_path i "product")
    ++ (unless (is_filled i.model_code) (item_path i "model")
        ++ unless (has_count i.estimated_quantity) (item_path i "estimatedQuantity"))

abbrev concat_map {ℓ} : {A : Type ℓ} → (A → List String) → List A → List String
concat_map f [] = []
concat_map f (x ∷ xs) = f x ++ concat_map f xs

abbrev pub total_quantity : List GradeLine → ℕ
total_quantity [] = 0
total_quantity (l ∷ ls) = l.quantity + total_quantity ls

abbrev is_total : ℕ → Option ℕ → Bool
is_total n none = false
is_total n (some m) = n == m

abbrev has_whole_grade : Item → Bool
has_whole_grade i =
    not (is_none_left i.grade)
    && all (λ l. is_count (GradeLine.quantity l)) i.grade
    && is_total (total_quantity i.grade) i.estimated_quantity

abbrev specification_blockers : Item → List String
unfolding lookup
specification_blockers i =
    unless (not (is_none_left i.fabrics)) (item_path i "fabrics")
    ++ (concat_map
          (λ k. unless (is_filled (lookup k i.colors)) (item_path i (text_join "." "colors" k)))
          piece_colors
        ++ unless (has_whole_grade i) (item_path i "grade.total"))

-- `latestAssessments`: a later assessment of a field takes the place of an earlier one.
unfoldable pub latest_from : Table Assessment → List Assessment → Table Assessment
unfolding put
latest_from t [] = t
latest_from t (a ∷ rest) = latest_from (put a.field a t) rest

abbrev pub latest : State → Table Assessment
unfolding latest_from
latest s = latest_from [] s.assessments

abbrev applies : Option Definition → State → Bool
applies none s = false
applies (some d) s = is_applicable d s

abbrev is_set_aside : Option Assessment → Bool
is_set_aside none = false
is_set_aside (some a) = elim a.status [ set_aside ↦ true | _ ↦ false ]

-- Whether `latestAssessment` gives `nao_aplicavel`.
unfoldable pub sets_aside : State → String → Bool
unfolding latest
sets_aside s field = applies (resolve_field field) s && is_set_aside (lookup field (latest s))

abbrev artwork_blockers : State → Option Artwork → List String
artwork_blockers s none = "artwork.status" ∷ []
artwork_blockers s (some a) =
    if is_not_applicable (some a)
    then unless (sets_aside s "artwork") "artwork"
    else unless (is_filled a.responsibility_envelope) "artwork.responsibility"
      ++ (unless (is_filled a.technique_code) "artwork.technique"
          ++ (unless (not (is_none_left a.locations)) "artwork.locations"
              ++ (unless (not (is_none_left a.colors)) "artwork.colors"
                  ++ unless
                      (not
                        (elim a.status [ some ready ↦ true | _ ↦ false ] && is_none_left a.files))
                      "artwork.files")))

abbrev mode_blockers : Logistics → Option Mode → List String
mode_blockers l none = "logistics.mode" ∷ []
mode_blockers l (some delivery) =
    unless (is_filled l.city_envelope) "logistics.city"
    ++ unless (is_filled l.address_envelope) "logistics.address"
mode_blockers l (some pickup) =
    unless (is_filled l.pickup_location_envelope) "logistics.pickupLocation"

abbrev logistics_blockers : Option Logistics → List String
logistics_blockers none = "logistics.desiredDate" ∷ []
logistics_blockers (some l) =
    unless (is_filled l.desired_date) "logistics.desiredDate"
    ++ (unless (is_filled l.purpose_envelope) "logistics.purpose"
        ++ (unless (is_filled l.purchase_profile_envelope) "logistics.purchaseProfile"
            ++ mode_blockers l l.mode))

unfoldable pub gate_blockers : State → Stage → List String
unfolding specification_blockers sets_aside
gate_blockers s produto =
    order_blockers s.order
    ++ (unless (not (is_none_left s.items)) "items" ++ concat_map product_blockers s.items)
gate_blockers s especificacao = concat_map specification_blockers s.items
gate_blockers s estampa = artwork_blockers s s.artwork
gate_blockers s logistica = logistics_blockers s.logistics

-- `belongsToStage`: `[^.]+` is one text between dots that is not empty.
abbrev is_product_part : List String → Bool
is_product_part (root ∷ id ∷ name ∷ []) =
    root == "items"
    && not (id == "")
    && (name == "product" || name == "model" || name == "estimatedQuantity")
is_product_part parts = false

unfoldable pub belongs_to : String → Stage → Bool
unfolding split_dots
belongs_to field produto = starts_with "order." field || is_product_part (split_dots field)
belongs_to field especificacao = starts_with "items." field
belongs_to field estampa = starts_with "artwork" field
belongs_to field logistica = starts_with "logistics." field

abbrev pub is_open : AssessmentStatus → Bool
is_open open_status = true
is_open divergent = true
is_open _ = false

abbrev requires : Option Definition → State → Bool
requires none s = false
requires (some d) s = is_applicable d s && d.required_for_gate

-- Whether a latest assessment keeps its field open.
unfoldable pub keeps_open : State → Stage → Assessment → Bool
unfolding resolve_field is_applicable belongs_to
keeps_open s stage a =
    requires (resolve_field a.field) s && is_open a.status && belongs_to a.field stage

abbrev pub names : String → List String → Bool
names field fields = any (λ f. f == field) fields

abbrev pub with_open : State → Stage → List Assessment → List String → List String
with_open s stage [] blockers = blockers
with_open s stage (a ∷ rest) blockers = with_open s stage rest (
    if keeps_open s stage a && not (names a.field blockers)
    then blockers ++ (a.field ∷ [])
    else blockers)

-- The blockers of a stage before they are sorted.
unfoldable pub unsorted_blockers : State → Stage → List String
unfolding gate_blockers sets_aside
unsorted_blockers s stage =
    with_open s stage (values (latest s)) (keep (λ f. not (sets_aside s f)) (gate_blockers s stage))
