-- ===== src/Orders/Repository/Stores.antt =====
-- The commands on store orders: `createStoreOrder`, `attachStoreReceipt` and `recordFirstPrint`.
use crm_silmer.Base.{
  ◌==◌, nat_eq, text_eq, if◌then◌else◌, is_some, is_text, Result, ok, ◌>>=◌, ◌>>◌, guard, or_throw,
  any, lookup, put, values, ℕ, ◌+◌, String, Bool, true, false, not, ◌||◌, none, some, [], ◌∷◌, ◌++◌,
}
use crm_silmer.Orders.Repository.{
  receipt_attached, ficha_first_printed, Event, StoreReceipt, Audit, Repo, event_of,
  format_order_number, added,
}
use crm_silmer.Orders.{
  StoreFicha, OrderError, order_not_found, store_order_duplicate, store_order_conflict,
  GatewayPayment, Order, is_loja,
}

pub record StoreAudit : Type 0 where
  pub actor : String
  pub correlation_id : String

-- `order` is what `buildStoreOrder` made of the checkout, `payment` its gateway payment.
pub record CreateStoreOrder : Type 0 where
  pub order : Order
  pub payment : GatewayPayment
  pub request_id : String
  pub phone_digest : String
  pub record_sha256 : String
  pub audit : StoreAudit
  pub now : ℕ

unfoldable pub audit_of : Order → String → String → StoreAudit → ℕ → Audit
audit_of order action reason audit at = record {
  action = action;
  actor = audit.actor;
  correlation_id = audit.correlation_id;
  occurred_at = at;
  reason = reason;
  target_id = order.id;
  version = order.version;
}

abbrev pub paid_by : String → Order → Bool
paid_by nsu order = elim order.gateway_payment [ none ↦ false | some p ↦ p.transaction_nsu == nsu ]

abbrev pub store_order : CreateStoreOrder → ℕ → Order
store_order input sequence = record (input.order) {
  gateway_payment = some input.payment;
  created_at = input.now;
  delivered_on = none;
  ficha_first_printed_at = none;
  ficha_first_printed_by = none;
  number = format_order_number sequence;
  number_sequence = sequence;
  reopened_at = none;
  reopened_by = none;
  updated_at = input.now;
  version = 1;
}

unfoldable pub create_store_order : Repo → CreateStoreOrder → Result OrderError (Repo × Order)
unfolding audit_of
create_store_order r input = do
  guard (not (any (λ (s : StoreReceipt). s.request_id == input.request_id) r.receipts))
      store_order_duplicate
  guard (not (any (paid_by input.payment.transaction_nsu) (values r.orders))) store_order_conflict
  let saved = store_order input (r.sequence + 1)
  let receipt : StoreReceipt = record {
    request_id = input.request_id;
    phone_digest = input.phone_digest;
    record_sha256 = input.record_sha256;
    order_id = saved.id;
    received_at = input.now;
  }
  let entry =
      audit_of saved "store.order.create" "INFINITEPAY_PAYMENT_CONFIRMED" input.audit
        saved.updated_at
  ok (
    record (added r saved input.audit.correlation_id) {
      receipts = r.receipts ++ receipt ∷ [];
      audits = r.audits ++ entry ∷ [];
    },
    saved,
  )

pub record AttachReceipt : Type 0 where
  pub order_id : String
  pub receipt_url : String
  pub audit : StoreAudit
  pub now : ℕ

-- What a command on a store order returns: the repository, the order, and whether it wrote.
abbrev pub Outcome : Type 0
Outcome = Repo × Order × Bool

abbrev pub attached : Order → StoreFicha → AttachReceipt → Order
attached current store input = record current {
  ficha = record (current.ficha) {
    store = some (record store { comprovante_url = some input.receipt_url });
  };
  updated_at = input.now;
  version = current.version + 1;
}

unfoldable pub attach_store_receipt : Repo → AttachReceipt → Result OrderError Outcome
unfolding audit_of
attach_store_receipt r input = do
  current ← or_throw (lookup input.order_id r.orders) order_not_found
  store ← or_throw current.ficha.store order_not_found
  if is_text store.comprovante_url input.receipt_url then ok (r, current, false) else do
    guard (not (is_some store.comprovante_url)) store_order_conflict
    let next = attached current store input
    let entry =
        audit_of next "store.order.receipt_attached" "INFINITEPAY_RECEIPT_ATTACHED" input.audit
          next.updated_at
    ok (
      record r {
        orders = put next.id next r.orders;
        events = r.events ++ event_of next receipt_attached input.audit.correlation_id ∷ [];
        audits = r.audits ++ entry ∷ [];
      },
      next,
      true,
    )

pub record FirstPrint : Type 0 where
  pub order_id : String
  pub actor_id : String
  pub correlation_id : String
  pub now : ℕ

abbrev pub printed : Order → FirstPrint → Order
printed current input = record current {
  ficha_first_printed_at = some input.now;
  ficha_first_printed_by = some input.actor_id;
  version = current.version + 1;
}

-- The event and the audit carry the instant of the print, not `updatedAt`.
unfoldable pub record_first_print : Repo → FirstPrint → Result OrderError Outcome
unfolding audit_of
record_first_print r input = do
  current ← or_throw (lookup input.order_id r.orders) order_not_found
  let done = not (is_loja current.origin) || is_some current.ficha_first_printed_at
  if done then ok (r, current, false) else do
    let next = printed current input
    let entry =
        audit_of next "order.ficha.first_print" "STORE_FICHA_FIRST_PRINTED"
          (record { actor = input.actor_id; correlation_id = input.correlation_id }) input.now
    let event : Event = record (event_of next ficha_first_printed input.correlation_id) {
      occurred_at = input.now;
    }
    ok (
      record r {
        orders = put next.id next r.orders;
        events = r.events ++ event ∷ [];
        audits = r.audits ++ entry ∷ [];
      },
      next,
      true,
    )
