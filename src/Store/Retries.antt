-- ===== src/Store/Retries.antt =====
-- A checkout that comes again.
use crm_silmer.Base.{
  if◌then◌else◌, Result, ok, err, map_ok, lookup, lookup-put, ℕ, String, ◌≡◌, refl, ap, ◌∙◌, Bool,
  true, false, Option, none, some, List, [], ◌∷◌, arith, eq_iff,
}
use crm_silmer.Orders.{order_locked, Order}
use crm_silmer.Orders.Repository.{Repo}
use crm_silmer.Orders.Repository.Queries.{find_store_order}
use crm_silmer.Store.{
  StoreError, repository_error, Checkout, Entry, fingerprint_entries, Match, match_store_catalog,
}
use crm_silmer.Store.Service.{
  Setup, Call, Recorded, fingerprint_of, paid_at_first, same_order, stored_receipt, answered,
  reconcile_receipt, reconcile, created_or_raced, creation, create_matched, record_checkout,
}
use crm_silmer.Store.Sold.{
  IsSold, match_store_catalog-IsSold, Stored-find_store_order, Stored-duplicate,
}
use crm_silmer.Store.Recorded.{Created, record_checkout-Created}
use crm_silmer.Store.Built.{store_item, gateway_payment_of, build_store_order, require_unlocked}

-- The checkout as a retry may bring it: with another instant of the payment, and with the receipt
-- that was recorded or with none.
abbrev pub again : Checkout → (paid_at : ℕ) → (receipt : Bool) → Checkout
again c paid_at receipt = record c {
  payment = record c.payment {
    paid_at = paid_at;
    receipt_url = if receipt then c.payment.receipt_url else none;
  };
}

-- The receipt and the instant of the payment that the first call kept.
receipt_known :
    (t : Repo) (order : Order) (known : Option String) (b : Bool) (call : Call)
    → reconcile_receipt t order known (if b then known else none) call ≡ ok (answered t order)
receipt_known t order known false call = refl
receipt_known t order none true call = refl
receipt_known t order (some url) true call = ground (arith, eq_iff url url)

entries-again :
    (c : Checkout) (paid_at : ℕ) (receipt : Bool)
    → fingerprint_entries (paid_at_first (some (gateway_payment_of c)) (again c paid_at receipt))
      ≡ fingerprint_entries c
unfolding fingerprint_entries
entries-again c paid_at receipt = refl

-- The order that a call created takes the retry for itself.
module _ (s s' : Setup) (r : Repo) (c : Checkout) (call call' : Call) (o : Recorded)
    (w : Created s r c call o) (hashes : s'.fingerprint ≡ s.fingerprint) (paid_at : ℕ)
    (receipt : Bool) where
  kept_payment : o.order.gateway_payment ≡ some (gateway_payment_of c)
  kept_payment = ap (λ (x : Order). x.gateway_payment) w.stored.is_saved

  kept_receipt : stored_receipt o.order ≡ c.payment.receipt_url
  unfolding build_store_order
  kept_receipt = ap stored_receipt w.stored.is_saved

  same_order-again : same_order s' o.order (fingerprint_of s c) (again c paid_at receipt) ≡ true
  unfolding same_order
  same_order-again =
      let hash : fingerprint_of s' (paid_at_first o.order.gateway_payment (again c paid_at receipt))
          ≡ fingerprint_of s c =
        ap (λ g. s'.fingerprint (fingerprint_entries (paid_at_first g (again c paid_at receipt))))
          kept_payment
        ∙ ap s'.fingerprint (entries-again c paid_at receipt)
        ∙ ap (λ (f : List Entry → String). f (fingerprint_entries c)) hashes in
      ground (
        arith,
        hash,
        kept_payment,
        eq_iff (fingerprint_of s c)
            (fingerprint_of s' (paid_at_first o.order.gateway_payment (again c paid_at receipt))),
      )

  reconcile-again :
      (t : Repo)
      → reconcile s' t (o.order, fingerprint_of s c) (again c paid_at receipt) call'
        ≡ ok (answered t o.order)
  unfolding reconcile
  reconcile-again t =
      rw (same_order-again, kept_receipt)
        (receipt_known t o.order c.payment.receipt_url receipt call')

  found-again : find_store_order o.repo c.request_id ≡ some (o.order, fingerprint_of s c)
  found-again = Stored-find_store_order r (creation s w.m c call) o.repo o.order w.stored

  -- A race: the retry looked before the first call wrote.
  raced-again :
      (m : Match)
      → match_store_catalog s'.products s'.accept_test call'.now (again c paid_at receipt) ≡ ok m
      → create_matched s' o.repo (again c paid_at receipt) call' ≡ ok (answered o.repo o.order)
  raced-again m matched =
      rw
        (
          matched,
          Stored-duplicate r (creation s w.m c call) o.repo o.order
              (creation s' m (again c paid_at receipt) call') w.stored refl,
        )
        (rw (created_or_raced, found-again) (reconcile-again o.repo))

  raced_outcome :
      (x : Result StoreError Match)
      → match_store_catalog s'.products s'.accept_test call'.now (again c paid_at receipt) ≡ x
      → create_matched s' o.repo (again c paid_at receipt) call'
        ≡ map_ok (λ (m : Match). answered o.repo o.order) x
  raced_outcome (ok m) matched = raced-again m matched
  raced_outcome (err e) refused = rw refused refl

-- A checkout that a call recorded, and that comes again with another instant of the payment and the
-- same receipt or none, is answered with the order as it was recorded and nothing is written,
-- whatever the catalog, the clock and the acceptance of tests are by then.
pub record_checkout-again :
    (s s' : Setup) (before r later : Repo) (c : Checkout) (call call' : Call) (o : Recorded)
    (paid_at : ℕ) (receipt : Bool)
    → s'.fingerprint ≡ s.fingerprint
    → record_checkout s before r c call ≡ ok o
    → o.created ≡ true
    → record_checkout s' o.repo later (again c paid_at receipt) call' ≡ ok (answered o.repo o.order)
unfolding record_checkout
record_checkout-again s s' before r later c call call' o paid_at receipt hashes h new =
    let w = record_checkout-Created s before r c call h new in
    rw (found-again s s' r c call call' o w hashes paid_at receipt)
      (reconcile-again s s' r c call call' o w hashes paid_at receipt o.repo)

-- When a checkout comes again while a call records it, with another instant of the payment and the
-- same receipt or none, and the second call, with the same hash, looked before the first wrote,
-- the second still matches the checkout with its catalog and its clock: where they refuse it, it
-- answers with that error, and otherwise with the order of the first, in the repository as the
-- first left it.
pub record_checkout-race :
    (s s' : Setup) (before r early : Repo) (c : Checkout) (call call' : Call) (o : Recorded)
    (paid_at : ℕ) (receipt : Bool)
    → s'.fingerprint ≡ s.fingerprint
    → record_checkout s before r c call ≡ ok o
    → o.created ≡ true
    → find_store_order early c.request_id ≡ none
    → record_checkout s' early o.repo (again c paid_at receipt) call'
      ≡ map_ok
          (λ (m : Match). answered o.repo o.order)
          (match_store_catalog s'.products s'.accept_test call'.now (again c paid_at receipt))
unfolding record_checkout
record_checkout-race s s' before r early c call call' o paid_at receipt hashes h new unseen =
    let w = record_checkout-Created s before r c call h new in
    rw unseen (raced_outcome s s' r c call call' o w hashes paid_at receipt _ refl)

-- An order that a call created is of a product that the shop sells, in a color, a size and a number
-- of pieces that it has; its amount is the catalog's price, or the price of a test where tests are
-- accepted and the checkout is one, and was paid; it has all its pieces in one line of its grade;
-- it is locked; and the repository has it.
pub record_checkout-IsSold :
    (s : Setup) (before r : Repo) (c : Checkout) (call : Call) (o : Recorded)
    → record_checkout s before r c call ≡ ok o
    → o.created ≡ true
    → (m : Match) × IsSold s.products s.accept_test c m
      × (o.order.final_amount_cents ≡ some c.amount_cents)
      × (o.order.total_pieces ≡ c.quantity)
      × (o.order.ficha.items ≡ store_item m c.quantity ∷ [])
      × (require_unlocked o.order ≡ err (repository_error order_locked))
      × (lookup o.order.id o.repo.orders ≡ some o.order)
unfolding build_store_order require_unlocked
record_checkout-IsSold s before r c call o h new =
    let w = record_checkout-Created s before r c call h new in
    let sold = match_store_catalog-IsSold s.products s.accept_test call.now c w.matched in
    let saved = w.stored.is_saved in
    (
      w.m,
      sold,
      ap (λ (x : Order). x.final_amount_cents) saved ∙ ap some sold.price,
      ap (λ (x : Order). x.total_pieces) saved,
      ap (λ (x : Order). x.ficha.items) saved,
      ap require_unlocked saved,
      ap (lookup o.order.id) w.stored.orders
          ∙ ground (
            arith,
            lookup-put o.order.id o.order.id o.order r.orders,
            eq_iff o.order.id o.order.id,
          ),
    )
