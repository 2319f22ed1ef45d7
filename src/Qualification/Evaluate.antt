-- ===== src/Qualification/Evaluate.antt =====
-- `compareFieldPaths` of field-registry.js, and `evaluateQualificationState`. `before_in_locale` is
-- whether `localeCompare` is not above zero.
use Prim.Native.Char.{code}
use crm_silmer.Base.{
  ltb, text_eq, nat_eq, ◌==◌, if◌then◌else◌, Table, lookup, sort, ℕ, suc, ◌+◌, ◌-◌, ◌*◌, String,
  Bool, true, false, Option, none, some, List, [], ◌∷◌,
}
use crm_silmer.Qualification.{Item, State, empty_state}
use crm_silmer.Qualification.Registry.{
  Stage, produto, especificacao, estampa, logistica, Definition, split_dots, resolve_field,
}
use crm_silmer.Qualification.Gates.{is_none_left, unsorted_blockers}

abbrev stage_index : Stage → ℕ
stage_index produto = 0
stage_index especificacao = 1
stage_index estampa = 2
stage_index logistica = 3

abbrev find_index : String → List Item → ℕ → Option ℕ
find_index id [] n = none
find_index id (i ∷ items) n = if i.id == id then some n else find_index id items (suc n)

-- One above `itemPosition`, which may be -1.
abbrev item_position : State → Option String → ℕ
item_position s none = 0
item_position s (some id) = elim (find_index id s.items 0) [ none ↦ 1 | some n ↦ suc n ]

abbrev digits_value : ℕ → String → ℕ
digits_value n String.[] = n
digits_value n (String.◌∷◌ c s) = digits_value (n * 10 + (code c - 48)) s

-- One above `gradePosition`; the parts are those of a path of the registry.
abbrev grade_position : List String → ℕ
grade_position (root ∷ id ∷ group ∷ index ∷ name ∷ []) =
    if group == "grade" then suc (digits_value 0 index) else 0
grade_position parts = 0

abbrev sort_key : State → Definition → List ℕ
unfolding split_dots
sort_key s d =
    stage_index d.stage
    ∷ item_position s d.item_id
    ∷ d.order
    ∷ grade_position (split_dots d.path)
    ∷ []

-- The first difference decides, and `tie` where there is none.
abbrev first_difference : List ℕ → List ℕ → Bool → Bool
first_difference (a ∷ xs) (b ∷ ys) tie =
    if ltb a b then true else if ltb b a then false else first_difference xs ys tie
first_difference xs ys tie = tie

abbrev compared : State → Option Definition → Option Definition → Bool → Bool
unfolding sort_key
compared s (some a) (some b) tie = first_difference (sort_key s a) (sort_key s b) tie
compared s a b tie = tie

-- Whether `compareFieldPaths` is not above zero.
unfoldable pub not_after : (String → String → Bool) → State → String → String → Bool
unfolding resolve_field compared
not_after before_in_locale s left right =
    compared s (resolve_field left) (resolve_field right) (before_in_locale left right)

pub record Gate : Type 0 where
  pub blockers : List String
  pub complete : Bool
  pub next_pending_field : Option String

abbrev first_of : List String → Option String
first_of [] = none
first_of (f ∷ fields) = some f

-- `evaluateQualificationState`
unfoldable pub evaluate : (String → String → Bool) → State → Stage → Gate
unfolding not_after unsorted_blockers
evaluate before_in_locale s stage =
    let blockers = sort (not_after before_in_locale s) (unsorted_blockers s stage) in
    record {
      blockers = blockers;
      complete = is_none_left blockers;
      next_pending_field = first_of blockers;
    }

-- `evaluateGate` of a deal, with the empty state for a deal without one.
abbrev pub state_of : Option State → State
state_of none = empty_state
state_of (some s) = s

unfoldable pub evaluate_gate : (String → String → Bool) → Table State → String → Stage → Gate
evaluate_gate before_in_locale states deal_id stage =
    evaluate before_in_locale (state_of (lookup deal_id states)) stage

abbrev or_zero : Option ℕ → ℕ
or_zero none = 0
or_zero (some n) = n

abbrev pub total_estimated : List Item → ℕ
total_estimated [] = 0
total_estimated (i ∷ items) = or_zero i.estimated_quantity + total_estimated items

-- `getProjection`
unfoldable pub total_of : Table State → String → ℕ
total_of states deal_id = total_estimated (State.items (state_of (lookup deal_id states)))
