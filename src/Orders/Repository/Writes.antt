-- ===== src/Orders/Repository/Writes.antt =====
-- `#write` and the commands that go through it: `saveSection`, `projectBriefing`, `saveStatus` and
-- `saveMilestones`.
use crm_silmer.Base.{
  ◌==◌, nat_eq, text_eq, is_filled, Result, ok, ◌>>=◌, ◌>>◌, guard, or_throw, lookup, put, ℕ, ◌+◌,
  String, Bool, true, false, not, ◌&&◌, Option, none, some, [], ◌∷◌, ◌++◌,
}
use crm_silmer.Orders.Repository.{
  EventType, section_saved, briefing_projected, confirmed, reopened, milestones_saved, Repo,
  event_of,
}
use crm_silmer.Orders.{
  OrderStatus, pendente, confirmado, OrderError, order_status_conflict, version_conflict,
  order_locked, subject_target_invalid, order_not_found, Order, is_pendente, is_loja,
}

pub record AgentTarget : Type 0 where
  pub order_id : String
  pub subject_id : Option String

pub record WriteOptions : Type 0 where
  pub expected_version : ℕ
  pub correlation_id : String
  pub agent_target : Option AgentTarget

abbrev is_projection : EventType → Bool
is_projection briefing_projected = true
is_projection _ = false

abbrev pub target_fits : Option AgentTarget → EventType → String → Bool
target_fits none event_type order_id = true
target_fits (some t) event_type order_id =
    is_projection event_type && t.order_id == order_id && is_filled t.subject_id

abbrev pub written : Repo → String → EventType → String → Order → Repo
written r order_id event_type correlation_id next = record r {
  orders = put order_id next r.orders;
  events = r.events ++ event_of next event_type correlation_id ∷ [];
}

unfoldable pub write :
    Repo
    → (order_id : String) → WriteOptions
    → EventType
    → (Order → Result OrderError Order)
    → Result OrderError (Repo × Order)
write r order_id options event_type change = do
  current ← or_throw (lookup order_id r.orders) order_not_found
  guard (not (is_loja current.origin)) order_locked
  guard (target_fits options.agent_target event_type order_id) subject_target_invalid
  guard (current.version == options.expected_version) version_conflict
  changed ← change current
  let next : Order = record changed { version = current.version + 1 }
  ok (written r order_id event_type options.correlation_id next, next)

unfoldable pub change_ficha : Order → Order → Result OrderError Order
change_ficha order current = do
  guard (is_pendente current.status) order_status_conflict
  ok (record current {
    ficha = order.ficha;
    missing_fields = order.missing_fields;
    total_pieces = order.total_pieces;
    updated_at = order.updated_at;
  })

abbrev same_status : OrderStatus → OrderStatus → Bool
same_status pendente pendente = true
same_status confirmado confirmado = true
same_status _ _ = false

unfoldable pub change_status : Order → Order → Result OrderError Order
change_status order current = do
  guard (not (same_status current.status order.status)) order_status_conflict
  ok (record current {
    confirmed_at = order.confirmed_at;
    confirmed_by = order.confirmed_by;
    ficha = order.ficha;
    final_amount_cents = order.final_amount_cents;
    missing_fields = order.missing_fields;
    order_date = order.order_date;
    payment_condition = order.payment_condition;
    reopened_at = order.reopened_at;
    reopened_by = order.reopened_by;
    status = order.status;
    updated_at = order.updated_at;
  })

unfoldable pub change_milestones : Order → Order → Result OrderError Order
change_milestones order current = ok (record current {
  delivered_on = order.delivered_on;
  paid_on = order.paid_on;
  updated_at = order.updated_at;
})

-- `statusEventType`
abbrev pub status_event_type : OrderStatus → EventType
status_event_type confirmado = confirmed
status_event_type pendente = reopened

unfoldable pub save_section : Repo → Order → WriteOptions → Result OrderError (Repo × Order)
unfolding write change_ficha
save_section r order options = write r order.id options section_saved (change_ficha order)

unfoldable pub project_briefing : Repo → Order → WriteOptions → Result OrderError (Repo × Order)
unfolding write change_ficha
project_briefing r order options = write r order.id options briefing_projected (change_ficha order)

unfoldable pub save_status : Repo → Order → WriteOptions → Result OrderError (Repo × Order)
unfolding write change_status
save_status r order options =
    write r order.id options (status_event_type order.status) (change_status order)

unfoldable pub save_milestones : Repo → Order → WriteOptions → Result OrderError (Repo × Order)
unfolding write change_milestones
save_milestones r order options =
    write r order.id options milestones_saved (change_milestones order)
