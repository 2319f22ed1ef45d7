-- ===== src/Orders/Repository.antt =====
-- modules/orders/src/adapters/in-memory-order-repository.js, the reference implementation of the
-- `OrderRepository` port. A command is exclusive, and throws before it writes.
pub mod Stores
pub mod Writes
pub mod Commands
pub mod Effects
pub mod Events
pub mod Pending
pub mod Payments
pub mod Queries
pub mod Reports
pub mod Listing
pub mod Pages
mod Tests
use crm_silmer.Base.{
  ltb, text_eq, nat_eq, ◌==◌, if◌then◌else◌, is_some, is_text, Result, ok, guard, ◌>>=◌, ◌>>◌, find,
  Table, put, values, digit, ℕ, zero, suc, ◌+◌, ◌/◌, ◌%◌, String, Bool, true, false, not, ◌&&◌,
  Option, none, some, List, [], ◌∷◌, ◌++◌,
}
use crm_silmer.Orders.{
  Text, pendente, atendimento, CreatedByKind, Ficha, Blocker, payment_condition, paid_on,
  delivered_on, OrderError, order_pending_exists, idempotency_key_reused, Order, is_pendente, codes,
}

pub data EventType : Type 0 where
  created receipt_attached ficha_first_printed section_saved briefing_projected : EventType
  confirmed reopened milestones_saved : EventType

pub record Event : Type 0 where
  pub aggregate_version : ℕ
  pub correlation_id : String
  pub event_type : EventType
  pub occurred_at : ℕ
  pub conversation_id : Option String
  pub order_id : String

pub record StoreReceipt : Type 0 where
  pub request_id : String
  pub phone_digest : String
  pub record_sha256 : String
  pub order_id : String
  pub received_at : ℕ

pub record Audit : Type 0 where
  pub action : String
  pub actor : String
  pub correlation_id : String
  pub occurred_at : ℕ
  pub reason : String
  pub target_id : String
  pub version : ℕ

pub record Repo : Type 0 where
  pub orders : Table Order
  pub events : List Event
  pub receipts : List StoreReceipt
  pub audits : List Audit
  pub sequence : ℕ

-- `#record`: the event of what an order has become.
abbrev pub event_of : Order → EventType → String → Event
event_of order event_type correlation_id = record {
  aggregate_version = order.version;
  correlation_id = correlation_id;
  event_type = event_type;
  occurred_at = order.updated_at;
  conversation_id = order.conversation_id;
  order_id = order.id;
}

-- The decimal digits, with at least two of them, and the suffix.
unfoldable pub decimal : ℕ → ℕ → Text → Text
decimal zero n rest = rest
decimal (suc fuel) n rest =
    let digit = b'0' + n % 10 in
    let more = decimal fuel (n / 10) (digit ∷ rest) in if ltb n 10 then digit ∷ rest else more

unfoldable pub pad_two : Text → Text
pad_two (c ∷ []) = b'0' ∷ c ∷ []
pad_two t = t

unfoldable pub format_order_number : ℕ → Text
unfolding decimal pad_two
format_order_number sequence = pad_two (decimal (suc sequence) sequence []) ++ codes "-CRM"

pub record CreatePending : Type 0 where
  pub id : String
  pub conversation_id : Option String
  pub contact_id : Option String
  pub manual_owner_id : Option String
  pub manual_create_key : Option String
  pub fab_code : String
  pub ficha : Ficha
  pub total_pieces : ℕ
  pub missing_fields : List Blocker
  pub created_by_kind : CreatedByKind
  pub created_by : Option String
  pub first_contact_at : Option ℕ
  pub correlation_id : String
  pub now : ℕ

-- `left === right` where either may be null.
abbrev pub same_text : Option String → Option String → Bool
same_text none none = true
same_text (some x) (some y) = x == y
same_text _ _ = false

-- `#pendingFor`
unfoldable pub pending_for : Repo → String → Option Order
pending_for r conversation_id =
    find (λ (o : Order). is_text o.conversation_id conversation_id && is_pendente o.status)
      (values r.orders)

abbrev pub replay_of : Repo → Option String → Option Order
replay_of r none = none
replay_of r (some key) =
    if key == ""
    then none
    else find (λ (o : Order). is_text o.manual_create_key key) (values r.orders)

abbrev pub busy : Repo → Option String → Bool
busy r none = false
busy r (some conversation_id) =
    not (conversation_id == "") && is_some (pending_for r conversation_id)

abbrev pub pending_order : CreatePending → ℕ → Order
pending_order input sequence = record {
  id = input.id;
  number = format_order_number sequence;
  number_sequence = sequence;
  conversation_id = input.conversation_id;
  contact_id = input.contact_id;
  manual_owner_id = input.manual_owner_id;
  manual_create_key = input.manual_create_key;
  status = pendente;
  fab_code = input.fab_code;
  origin = atendimento;
  is_test = false;
  store_number = none;
  lead_time_business_days = none;
  gateway_payment = none;
  ficha_first_printed_at = none;
  ficha_first_printed_by = none;
  ficha = input.ficha;
  total_pieces = input.total_pieces;
  missing_fields = input.missing_fields;
  final_amount_cents = none;
  payment_condition = none;
  order_date = none;
  confirmed_at = none;
  confirmed_by = none;
  reopened_at = none;
  reopened_by = none;
  first_contact_at = input.first_contact_at;
  paid_on = none;
  delivered_on = none;
  created_by_kind = input.created_by_kind;
  created_by = input.created_by;
  version = 1;
  created_at = input.now;
  updated_at = input.now;
}

-- A new order and its event.
abbrev pub added : Repo → Order → String → Repo
added r order correlation_id = record r {
  orders = put order.id order r.orders;
  events = r.events ++ event_of order created correlation_id ∷ [];
  sequence = r.sequence + 1;
}

abbrev pub create_fresh : Repo → CreatePending → Result OrderError (Repo × Order)
create_fresh r input = do
  guard (not (busy r input.conversation_id)) order_pending_exists
  let order = pending_order input (r.sequence + 1)
  ok (added r order input.correlation_id, order)

-- `none` is a null of the caller; a field that is left out would differ from a stored null.
abbrev pub replayed : Repo → CreatePending → Option Order → Result OrderError (Repo × Order)
replayed r input none = create_fresh r input
replayed r input (some replay) = do
  guard
      (same_text replay.contact_id input.contact_id
        && same_text replay.manual_owner_id input.manual_owner_id)
      idempotency_key_reused
  ok (r, replay)

unfoldable pub create_pending : Repo → CreatePending → Result OrderError (Repo × Order)
unfolding pending_for
create_pending r input = replayed r input (replay_of r input.manual_create_key)
