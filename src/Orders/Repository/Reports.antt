-- ===== src/Orders/Repository/Reports.antt =====
-- What the queries of the order repository answer, against the orders that it holds.
use crm_silmer.Base.{
  is_text, length, keep, count, count-keep, Table, lookup, put, values, IsSorted, count-sort,
  sort-IsSorted, ℕ, ◌+◌, ◌≤◌, String, ◌≡◌, refl, ◌∙◌, Bool, true, not, ◌&&◌, none, List, [], ◌∷◌,
  arith,
}
use crm_silmer.Orders.Repository.{Repo}
use crm_silmer.Orders.Repository.Queries.{
  newer, older, list_by_conversation, is_open_delivery, open_deliveries, cents, sum_of, within,
  real_orders, is_confirmed, summary,
}
use crm_silmer.Orders.{Text, Order, is_pendente}

-- The open deliveries stand in the order of their numbers, and hold every order of the repository
-- that is confirmed, of the counter, undelivered and no test as often as it is there, and no other.
open_deliveries_lem :
    (r : Repo)
    → IsSorted older (open_deliveries r)
      × ((p : Order → Bool)
          → count p (open_deliveries r) ≡ count (λ o. is_open_delivery o && p o) (values r.orders))
unfolding open_deliveries
open_deliveries_lem r = (
  sort-IsSorted older (λ x y h. ground arith) (λ x y z h k. ground arith)
      (keep is_open_delivery (values r.orders)),
  λ p.
      count-sort older p (keep is_open_delivery (values r.orders))
      ∙ count-keep p is_open_delivery (values r.orders),
)

-- The orders of a conversation stand from the highest number to the lowest, each as often as the
-- repository holds it, and no other.
list_by_conversation_lem :
    (r : Repo) (id : String)
    → IsSorted newer (list_by_conversation r id)
      × ((p : Order → Bool)
          → count p (list_by_conversation r id)
            ≡ count (λ o. is_text o.conversation_id id && p o) (values r.orders))
unfolding list_by_conversation
list_by_conversation_lem r id =
    let mine = keep (λ (o : Order). is_text o.conversation_id id) (values r.orders) in
    (
      sort-IsSorted newer (λ x y h. ground arith) (λ x y z h k. ground arith) mine,
      λ p.
          count-sort newer p mine
          ∙ count-keep p (λ (o : Order). is_text o.conversation_id id) (values r.orders),
    )

length-keep_split :
    {A : Type 0} (p : A → Bool) (xs : List A)
    → length xs ≡ length (keep p xs) + count (λ x. not (p x)) xs
length-keep_split p [] = refl
length-keep_split p (x ∷ xs) = ground (arith, length-keep_split p xs)

length-keep_le : {A : Type 0} (p : A → Bool) (xs : List A) → length (keep p xs) ≤ length xs
length-keep_le p [] = omega arith
length-keep_le p (x ∷ xs) = ground (arith, length-keep_le p xs)

sum_of-keep_le :
    {A : Type 0} (f : A → ℕ) (p : A → Bool) (xs : List A) → sum_of f (keep p xs) ≤ sum_of f xs
sum_of-keep_le f p [] = omega arith
sum_of-keep_le f p (x ∷ xs) = ground (arith, sum_of-keep_le f p xs)

pending_real :
    (xs : List Order)
    → count (λ o. not (is_confirmed o)) (keep (λ (o : Order). not o.is_test) xs)
      ≡ count (λ o. not o.is_test && is_pendente o.status) xs
pending_real [] = refl
pending_real (x ∷ xs) = ground (arith, pending_real xs)

-- The summary counts as pending exactly the pending orders that are no tests, and what a period has
-- confirmed and sold never exceeds the totals.
pub summary_lem :
    (r : Repo) (from to : Text)
    → ((summary r from to).pending_count
        ≡ count (λ o. not o.is_test && is_pendente o.status) (values r.orders))
      × ((summary r from to).period_confirmed_count ≤ (summary r from to).confirmed_count)
      × ((summary r from to).period_sold_amount_cents ≤ (summary r from to).sold_amount_cents)
unfolding summary real_orders
summary_lem r from to =
    let orders = keep (λ (o : Order). not o.is_test) (values r.orders) in
    let confirmed = keep is_confirmed orders in
    (
      omega (arith, length-keep_split is_confirmed orders, pending_real (values r.orders)),
      length-keep_le (λ (o : Order). within from to o.order_date) confirmed,
      sum_of-keep_le (λ (o : Order). cents o.final_amount_cents)
          (λ (o : Order). within from to o.order_date) confirmed,
    )

keep-put :
    (k : String) (o : Order) (t : Table Order)
    → o.is_test ≡ true
    → lookup k t ≡ none
    → keep (λ (o : Order). not o.is_test) (values (put k o t))
      ≡ keep (λ (o : Order). not o.is_test) (values t)
unfolding lookup put values
keep-put k o [] test free = ground arith
keep-put k o ((j, w) ∷ t) test free = ground (arith, keep-put k o t)

-- A test order that is added under a new id changes no summary.
summary-put :
    (r : Repo) (o : Order) (from to : Text)
    → o.is_test ≡ true
    → lookup o.id r.orders ≡ none
    → summary (record r { orders = put o.id o r.orders }) from to ≡ summary r from to
unfolding summary real_orders
summary-put r o from to test free = rw (keep-put o.id o r.orders test free) refl
