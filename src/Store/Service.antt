-- ===== src/Store/Service.antt =====
-- modules/orders/src/application/store-order-service.js: `record`, over the repository of orders.
-- The checkout is looked up in one state of the repository and created in another: between the two
-- another call may have recorded it.
use crm_silmer.Base.{
  text_eq, nat_eq, ◌==◌, if◌then◌else◌, is_some, Result, ok, err, guard, ◌>>=◌, ◌>>◌, Table, ℕ,
  String, Bool, true, false, ◌&&◌, ◌||◌, Option, none, some, List,
}
use crm_silmer.Orders.{Text, OrderError, store_order_duplicate, GatewayPayment, Order}
use crm_silmer.Orders.Repository.{Repo}
use crm_silmer.Orders.Repository.Stores.{
  StoreAudit, CreateStoreOrder, create_store_order, attached, attach_store_receipt,
}
use crm_silmer.Orders.Repository.Queries.{find_store_order}
use crm_silmer.Store.{
  StoreError, conflict, repository_error, StoreProduct, Checkout, Entry, fingerprint_entries, Match,
  match_store_catalog,
}
use crm_silmer.Store.Built.{gateway_payment_of, build_store_order}

pub record Setup : Type 0 where
  pub accept_test : Bool
  pub fab_code : String
  pub fingerprint : List Entry → String
  pub operational_day : ℕ → Text
  pub phone_digest : Text → String
  pub products : Table StoreProduct

-- The audit, the clock at its two readings and the id that `idFactory` makes.
pub record Call : Type 0 where
  pub audit : StoreAudit
  pub id : String
  pub now : ℕ
  pub reconciled_at : ℕ

-- The repository, the order, whether it was created and whether the receipt was attached.
pub record Recorded : Type 0 where
  pub repo : Repo
  pub order : Order
  pub created : Bool
  pub receipt_attached : Bool

-- `storeRecordFingerprint`
abbrev pub fingerprint_of : Setup → Checkout → String
fingerprint_of s c = s.fingerprint (fingerprint_entries c)

abbrev pub paid_at_first : Option GatewayPayment → Checkout → Checkout
paid_at_first none c = c
paid_at_first (some p) c = record c { payment = record c.payment { paid_at = p.confirmed_at } }

-- `sameOrder`
unfoldable pub same_order : Setup → Order → String → Checkout → Bool
unfolding fingerprint_entries
same_order s stored hash c =
    hash == fingerprint_of s c
    || is_some stored.gateway_payment
      && hash == fingerprint_of s (paid_at_first stored.gateway_payment c)

abbrev pub stored_receipt : Order → Option String
stored_receipt order = elim order.ficha.store [ none ↦ none | some f ↦ f.comprovante_url ]

abbrev pub lift : {A : Type 0} → Result OrderError A → Result StoreError A
lift (ok a) = ok a
lift (err e) = err (repository_error e)

abbrev pub answered : Repo → Order → Recorded
answered r order = record { repo = r; order = order; created = false; receipt_attached = false }

abbrev pub attach : Repo → Order → String → Call → Result StoreError Recorded
attach r order url call = do
  (r', next, attached) ← lift (
      attach_store_receipt r (record {
        order_id = order.id;
        receipt_url = url;
        audit = call.audit;
        now = call.reconciled_at;
      }))
  ok (record { repo = r'; order = next; created = false; receipt_attached = attached })

-- `reconcile`, after the orders are known to be the same: what the stored order and the retry have
-- of the receipt.
abbrev pub reconcile_receipt :
    Repo → Order → (stored sent : Option String) → Call → Result StoreError Recorded
reconcile_receipt r order stored none call = ok (answered r order)
reconcile_receipt r order none (some url) call = attach r order url call
reconcile_receipt r order (some known) (some url) call =
    if url == known then ok (answered r order) else err conflict

-- `reconcile`
unfoldable pub reconcile :
    Setup → Repo → Order × String → Checkout → Call → Result StoreError Recorded
unfolding same_order
reconcile s r (stored, hash) c call = do
  guard (same_order s stored hash c) conflict
  reconcile_receipt r stored (stored_receipt stored) c.payment.receipt_url call

-- What the creation in a state of the repository answers; a duplicate is looked up again.
abbrev pub created_or_raced :
    Setup → Repo → Checkout → Call → Result OrderError (Repo × Order) → Result StoreError Recorded
created_or_raced s r c call (ok (r', saved)) =
    ok (record { repo = r'; order = saved; created = true; receipt_attached = false })
created_or_raced s r c call (err store_order_duplicate) = elim (find_store_order r c.request_id) [
  | none ↦ err (repository_error store_order_duplicate)
  | some raced ↦ reconcile s r raced c call
]
created_or_raced s r c call (err e) = err (repository_error e)

abbrev pub creation : Setup → Match → Checkout → Call → CreateStoreOrder
creation s m c call = record {
  order = build_store_order s.operational_day s.fab_code call.id m call.now c;
  payment = gateway_payment_of c;
  request_id = c.request_id;
  phone_digest = s.phone_digest c.customer_phone;
  record_sha256 = fingerprint_of s c;
  audit = call.audit;
  now = call.now;
}

abbrev pub create_matched : Setup → Repo → Checkout → Call → Result StoreError Recorded
create_matched s r c call = do
  m ← match_store_catalog s.products s.accept_test call.now c
  created_or_raced s r c call (create_store_order r (creation s m c call))

abbrev pub reconcile_or_create :
    Setup
    → (found : Option (Order × String)) → (before r : Repo) → Checkout
    → Call
    → Result StoreError Recorded
reconcile_or_create s none before r c call = create_matched s r c call
reconcile_or_create s (some existing) before r c call = reconcile s before existing c call

-- `record`: `before` is the repository at the lookup, `r` at the creation.
unfoldable pub record_checkout :
    Setup → (before r : Repo) → Checkout → Call → Result StoreError Recorded
record_checkout s before r c call =
    reconcile_or_create s (find_store_order before c.request_id) before r c call
