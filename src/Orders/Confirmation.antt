-- ===== src/Orders/Confirmation.antt =====
-- `order.js`: what an order still lacks, `confirmOrder`, `reopenOrder` and `recordMilestones`.
use crm_silmer.Orders.{Field, grade, malhas, tipo, cor, tipo_servico, gola, artwork}
use crm_silmer.Base.{
  if◌then◌else◌, is_some, Result, ok, ◌>>◌, guard, any, keep, ℕ, suc, String, Bool, true, false,
  not, ◌||◌, Option, none, some, List, [], ◌∷◌, ◌++◌, map,
}
use crm_silmer.Orders.{
  Text, pendente, confirmado, PaymentCondition, FichaItem, FichaArtwork, Ficha, Blocker, no_items,
  delivery_day, final_amount, payment_condition, item_field, Milestone, paid_on, delivered_on,
  OrderError, type_error, order_status_conflict, order_not_confirmable, invalid_date, Order,
  is_pendente, is_blank, is_blank?, is_positive_safe, codes,
}
use crm_silmer.Orders.Calendar.{is_calendar_day, is_milestone_day}

abbrev pub has_artwork_origin : Option FichaArtwork → Bool
has_artwork_origin none = false
has_artwork_origin (some a) = a.feito_pelo_cliente || a.feito_pela_silmer || a.sem_estampa

-- Whether an item lacks a principal field.
unfoldable pub lacks : FichaItem → Field → Bool
lacks item grade = elim item.grade [ [] ↦ true | _ ∷ _ ↦ false ]
lacks item malhas = not (any (λ t. not (is_blank t)) item.malhas)
lacks item tipo = is_blank? item.tipo
lacks item cor = is_blank? item.cor
lacks item tipo_servico = is_blank? item.tipo_servico
lacks item gola = is_blank? item.gola

abbrev pub item_required_fields : List Field
item_required_fields = tipo ∷ cor ∷ tipo_servico ∷ malhas ∷ grade ∷ gola ∷ []

unfoldable pub item_gaps : FichaItem → ℕ → List Blocker
unfolding lacks
item_gaps item index = map (item_field index) (keep (lacks item) item_required_fields)

-- `items.flatMap(itemGaps)`, from an index.
unfoldable pub gaps_from : ℕ → List FichaItem → List Blocker
gaps_from index [] = []
gaps_from index (item ∷ items) = item_gaps item index ++ gaps_from (suc index) items

unfoldable pub items_blockers : List FichaItem → List Blocker
unfolding gaps_from
items_blockers [] = no_items ∷ []
items_blockers (item ∷ items) = gaps_from 0 (item ∷ items)

-- `blockers.push` unless the test holds.
abbrev pub unless : Bool → Blocker → List Blocker
unless true b = []
unless false b = b ∷ []

unfoldable pub confirmation_blockers : Ficha → Option ℕ → Option PaymentCondition → List Blocker
confirmation_blockers ficha amount condition =
    items_blockers ficha.items
    ++ (unless (has_artwork_origin ficha.artwork) artwork
        ++ (unless (is_calendar_day ficha.summary.data_entrega_confirmada) delivery_day
            ++ (unless (is_positive_safe amount) final_amount
                ++ unless (is_some condition) payment_condition)))

unfoldable pub missing_for_confirmation : Order → List Blocker
missing_for_confirmation order =
    if is_pendente order.status
    then confirmation_blockers order.ficha order.final_amount_cents order.payment_condition
    else []

pub record ConfirmInput : Type 0 where
  pub amount_cents : Option ℕ
  pub payment_condition : Option PaymentCondition
  pub actor_id : String
  pub now : ℕ

-- `requireActorAndClock`; an instant of the model is a valid clock.
unfoldable pub require_actor : String → Result OrderError (Unit {0})
unfolding is_blank
require_actor actor_id = guard (not (is_blank (codes actor_id))) type_error

abbrev pub is_nil {ℓ} : {A : Type ℓ} → List A → Bool
is_nil [] = true
is_nil (_ ∷ _) = false

-- `operational_day` is what `orderDateFormat.format` prints of an instant in São Paulo.
module _ (operational_day : ℕ → Text) where
  abbrev pub confirmed : Order → ConfirmInput → Order
  confirmed order input = record order {
    confirmed_at = some input.now;
    confirmed_by = some input.actor_id;
    final_amount_cents = input.amount_cents;
    missing_fields = [];
    order_date = some (operational_day input.now);
    payment_condition = input.payment_condition;
    status = confirmado;
    updated_at = input.now;
  }

  unfoldable pub confirm_order : Order → ConfirmInput → Result OrderError Order
  confirm_order order input = do
    require_actor input.actor_id
    guard (is_pendente order.status) order_status_conflict
    let blockers = confirmation_blockers order.ficha input.amount_cents input.payment_condition
    guard (is_nil blockers) (order_not_confirmable blockers)
    ok (confirmed order input)

  abbrev milestone_gaps : Option Text → Option Text → Text → List Milestone
  milestone_gaps paid delivered today =
      (if is_milestone_day paid today then [] else paid_on ∷ [])
      ++ (if is_milestone_day delivered today then [] else delivered_on ∷ [])

  unfoldable pub record_milestones :
      Order → (paid delivered : Option Text) (now : ℕ) → Result OrderError Order
  record_milestones order paid delivered now = do
    let invalid = milestone_gaps paid delivered (operational_day now)
    guard (is_nil invalid) (invalid_date invalid)
    ok (record order { delivered_on = delivered; paid_on = paid; updated_at = now })

abbrev pub reopened : Order → String → ℕ → Order
reopened order actor_id now = record order {
  reopened_at = some now;
  reopened_by = some actor_id;
  status = pendente;
  updated_at = now;
}

unfoldable pub reopen_order : Order → (actor_id : String) (now : ℕ) → Result OrderError Order
reopen_order order actor_id now = do
  require_actor actor_id
  guard (not (is_pendente order.status)) order_status_conflict
  let next = reopened order actor_id now
  ok (record next { missing_fields = missing_for_confirmation next })
