-- ===== src/Orders/Repository/Queries.antt =====
-- What the order repository answers without a change: the finders, the summary of the Painel and
-- the open deliveries. Sums are exact below 2^53, and so is the rounded average.
use crm_silmer.Base.{
  leb, text_eq, nat_eq, ◌==◌, is_some, is_text, length, find, keep, lookup, values, sort, ℕ, zero,
  suc, ◌+◌, ◌-◌, ◌*◌, ◌/◌, String, Bool, true, false, not, ◌&&◌, Option, none, some, List, [], ◌∷◌,
  ◌++◌,
}
use crm_silmer.Orders.Repository.{StoreReceipt, Repo, pending_for}
use crm_silmer.Orders.{Text, Order, is_pendente, is_loja}
use crm_silmer.Orders.Calendar.{text_leb}

unfoldable pub find_by_id : Repo → String → Option Order
find_by_id r order_id = lookup order_id r.orders

unfoldable pub find_pending_by_conversation : Repo → String → Option Order
unfolding pending_for
find_pending_by_conversation r conversation_id = pending_for r conversation_id

abbrev stored_order : Repo → Option StoreReceipt → Option (Order × String)
stored_order r none = none
stored_order r (some receipt) = elim (lookup receipt.order_id r.orders) [
  | none ↦ none
  | some order ↦ some (order, receipt.record_sha256)
]

-- The order and the hash of a checkout.
unfoldable pub find_store_order : Repo → String → Option (Order × String)
find_store_order r request_id =
    stored_order r (find (λ (s : StoreReceipt). s.request_id == request_id) r.receipts)

abbrev pub newer : Order → Order → Bool
newer a b = leb b.number_sequence a.number_sequence

abbrev pub older : Order → Order → Bool
older a b = leb a.number_sequence b.number_sequence

unfoldable pub list_by_conversation : Repo → String → List Order
list_by_conversation r conversation_id =
    sort newer (keep (λ (o : Order). is_text o.conversation_id conversation_id) (values r.orders))

abbrev pub is_unset : Option Text → Bool
is_unset none = true
is_unset (some []) = true
is_unset (some (_ ∷ _)) = false

-- A confirmed order of the counter that is no test and not delivered.
abbrev pub is_open_delivery : Order → Bool
is_open_delivery o =
    not (is_pendente o.status) && not (is_loja o.origin) && is_unset o.delivered_on && not o.is_test

unfoldable pub open_deliveries : Repo → List Order
open_deliveries r = sort older (keep is_open_delivery (values r.orders))

abbrev pub cents : Option ℕ → ℕ
cents none = 0
cents (some n) = n

abbrev pub sum_of {ℓ} : {A : Type ℓ} → (A → ℕ) → List A → ℕ
sum_of f [] = 0
sum_of f (x ∷ xs) = f x + sum_of f xs

-- `Math.round(total / count)`
abbrev pub average : ℕ → ℕ → ℕ
average total zero = 0
average total (suc n) = (2 * total + suc n) / (2 * suc n)

abbrev pub within : Text → Text → Option Text → Bool
within from to none = false
within from to (some day) = text_leb from day && text_leb day to

abbrev paid_at : Order → List ℕ
paid_at o = elim o.gateway_payment [ none ↦ [] | some p ↦ p.confirmed_at ∷ [] ]

abbrev pub concat_map {ℓ κ} : {A : Type ℓ} {B : Type κ} → (A → List B) → List A → List B
concat_map f [] = []
concat_map f (x ∷ xs) = f x ++ concat_map f xs

abbrev pub first {ℓ} : {A : Type ℓ} → List A → Option A
first [] = none
first (x ∷ xs) = some x

pub record Summary : Type 0 where
  pub confirmed_count : ℕ
  pub sold_amount_cents : ℕ
  pub average_ticket_cents : ℕ
  pub pending_count : ℕ
  pub total_pieces_sold : ℕ
  pub store_new_count : ℕ
  pub store_new_oldest_paid_at : Option ℕ
  pub period_confirmed_count : ℕ
  pub period_sold_amount_cents : ℕ

-- A test order is never a sale.
unfoldable pub real_orders : Repo → List Order
real_orders r = keep (λ (o : Order). not o.is_test) (values r.orders)

abbrev pub is_confirmed : Order → Bool
is_confirmed o = not (is_pendente o.status)

abbrev pub is_store_new : Order → Bool
is_store_new o = is_loja o.origin && not (is_some o.ficha_first_printed_at)

unfoldable pub summary : Repo → (from to : Text) → Summary
unfolding real_orders text_leb
summary r from to =
    let orders = real_orders r in
    let confirmed = keep is_confirmed orders in
    let sold = sum_of (λ (o : Order). cents o.final_amount_cents) confirmed in
    let in_period = keep (λ (o : Order). within from to o.order_date) confirmed in
    let store_new = keep is_store_new orders in
    record {
      confirmed_count = length confirmed;
      sold_amount_cents = sold;
      average_ticket_cents = average sold (length confirmed);
      pending_count = length orders - length confirmed;
      total_pieces_sold = sum_of (λ (o : Order). o.total_pieces) confirmed;
      store_new_count = length store_new;
      store_new_oldest_paid_at = first (sort leb (concat_map paid_at store_new));
      period_confirmed_count = length in_period;
      period_sold_amount_cents = sum_of (λ (o : Order). cents o.final_amount_cents) in_period;
    }
