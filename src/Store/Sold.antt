-- ===== src/Store/Sold.antt =====
-- What the shop sold when a checkout was recorded.
use crm_silmer.Base.{
  ltb, text_eq, nat_eq, ◌==◌, Bool-cases, ok, err, or_throw, >>=-eq-ok, ok-injective, guard-eq-ok,
  or_throw-eq-ok, any, any-append, find, Table, lookup, put, values, lookup-put, ℕ, ◌+◌, ◌≤◌, ◌≡◌,
  refl, ap, ◌∙◌, subst, ◌⊎◌, inl, inr, Bool, true, false, not, ◌||◌, some, List, [], ◌∷◌, ◌++◌,
  arith, eq_iff,
}
use crm_silmer.Orders.{store_order_duplicate, Order}
use crm_silmer.Orders.Repository.{StoreReceipt, Repo}
use crm_silmer.Orders.Repository.Stores.{CreateStoreOrder, paid_by, store_order, create_store_order}
use crm_silmer.Orders.Repository.Queries.{find_store_order}
use crm_silmer.Store.{
  catalog_mismatch, StoreProduct, Checkout, is_supported, is_quantity, catalog_price, is_price,
  is_explainable, Match, match_store_catalog,
}

-- A match of the checkout with the catalog, described without the order of the checks.
pub record IsSold (products : Table StoreProduct) (accept_test : Bool) (c : Checkout) (m : Match)
    : Type 0 where
  pub sells : lookup c.product_slug products ≡ some m.product
  pub in_color : lookup c.color_id m.product.cores ≡ some m.color
  pub in_size : lookup c.size_id m.product.tamanhos ≡ some m.size
  pub pieces : is_quantity m.product c.quantity ≡ true
  pub in_time : c.lead_time_days ≡ m.color.prazo_dias_uteis
  pub price : m.price_cents ≡ c.amount_cents
  pub at_price :
      (c.amount_cents ≡ catalog_price m.product c.quantity)
      ⊎ ((c.test ≡ true) × (accept_test ≡ true) × (c.amount_cents ≡ m.product.preco_teste_centavos))
  pub paid : c.amount_cents ≤ c.payment.paid_amount_cents

price-cases :
    (p : StoreProduct) (c : Checkout) (accept_test : Bool)
    → (not c.test || accept_test) ≡ true
    → is_price p c ≡ true
    → (c.amount_cents ≡ catalog_price p c.quantity)
      ⊎ ((c.test ≡ true) × (accept_test ≡ true) × (c.amount_cents ≡ p.preco_teste_centavos))
price-cases p c accept_test allowed fine =
    elim (Bool-cases (c.amount_cents == catalog_price p c.quantity)) [
      | inl full ↦ inl (ground arith)
      | inr less ↦ inr (ground arith)
    ]

pub match_store_catalog-IsSold :
    (products : Table StoreProduct) (accept_test : Bool) (now : ℕ) (c : Checkout) {m : Match}
    → match_store_catalog products accept_test now c ≡ ok m
    → IsSold products accept_test c m
unfolding match_store_catalog
match_store_catalog-IsSold products accept_test now c {m} h =
    let (allowed, h1) = guard-eq-ok (not c.test || accept_test) _ _ h in
    let (supported, h2) = guard-eq-ok (is_supported c.payment) _ _ h1 in
    let (p, found_p, h3) =
      >>=-eq-ok (or_throw (lookup c.product_slug products) catalog_mismatch) _ h2 in
    let (k, found_k, h4) = >>=-eq-ok (or_throw (lookup c.color_id p.cores) catalog_mismatch) _ h3 in
    let (z, found_z, h5) =
      >>=-eq-ok (or_throw (lookup c.size_id p.tamanhos) catalog_mismatch) _ h4 in
    let (quantity, h6) = guard-eq-ok (is_quantity p c.quantity) _ _ h5 in
    let (time, h7) = guard-eq-ok (c.lead_time_days == k.prazo_dias_uteis) _ _ h6 in
    let (price, h8) = guard-eq-ok (is_price p c) _ _ h7 in
    let (enough, h9) = guard-eq-ok (not (ltb c.payment.paid_amount_cents c.amount_cents)) _ _ h8 in
    let (explained, done) = guard-eq-ok (is_explainable c.payment.paid_at now) _ _ h9 in
    subst (IsSold products accept_test c) (ok-injective done) (record {
      sells = or_throw-eq-ok _ _ found_p;
      in_color = or_throw-eq-ok _ _ found_k;
      in_size = or_throw-eq-ok _ _ found_z;
      pieces = quantity;
      in_time = ground arith;
      price = refl;
      at_price = price-cases p c accept_test allowed price;
      paid = ground arith;
    })

-- What `createStoreOrder` leaves.
pub record Stored (r : Repo) (input : CreateStoreOrder) (t : Repo) (saved : Order) : Type 0 where
  pub is_saved : saved ≡ store_order input (r.sequence + 1)
  pub is_new : any (λ (s : StoreReceipt). s.request_id == input.request_id) r.receipts ≡ false
  pub orders : t.orders ≡ put saved.id saved r.orders
  pub receipt : StoreReceipt
  pub receipts : t.receipts ≡ r.receipts ++ receipt ∷ []
  pub about : receipt.request_id ≡ input.request_id
  pub hash : receipt.record_sha256 ≡ input.record_sha256
  pub of_order : receipt.order_id ≡ saved.id

pub create_store_order-eq-ok :
    (r : Repo) (input : CreateStoreOrder) {t : Repo} {saved : Order}
    → create_store_order r input ≡ ok (t, saved)
    → Stored r input t saved
unfolding create_store_order
create_store_order-eq-ok r input {t} {saved} h =
    let (fresh, h1) =
      guard-eq-ok (not (any (λ (s : StoreReceipt). s.request_id == input.request_id) r.receipts)) _
        _ h in
    let (unpaid, done) =
      guard-eq-ok (not (any (paid_by input.payment.transaction_nsu) (values r.orders))) _ _ h1 in
    let input_receipt : StoreReceipt = record {
      request_id = input.request_id;
      phone_digest = input.phone_digest;
      record_sha256 = input.record_sha256;
      order_id = (store_order input (r.sequence + 1)).id;
      received_at = input.now;
    } in
    subst (λ (p : Repo × Order). Stored r input p.0 p.1) (ok-injective done)
      (record {
        is_saved = refl;
        is_new = ground arith;
        orders = refl;
        receipt = input_receipt;
        receipts = refl;
        about = refl;
        hash = refl;
        of_order = refl;
      })

find-append {ℓ} :
    {A : Type ℓ} (p : A → Bool) (xs : List A) (y : A)
    → any p xs ≡ false
    → p y ≡ true
    → find p (xs ++ y ∷ []) ≡ some y
find-append p [] y none_before here = ground arith
find-append p (x ∷ xs) y none_before here = ground (arith, find-append p xs y)

-- The new order is found by its checkout.
pub Stored-find_store_order :
    (r : Repo) (input : CreateStoreOrder) (t : Repo) (saved : Order)
    → Stored r input t saved
    → find_store_order t input.request_id ≡ some (saved, input.record_sha256)
unfolding find_store_order
Stored-find_store_order r input t saved w =
    let found : find (λ (s : StoreReceipt). s.request_id == input.request_id) t.receipts
        ≡ some w.receipt =
      ap (find (λ (s : StoreReceipt). s.request_id == input.request_id)) w.receipts
      ∙ find-append (λ (s : StoreReceipt). s.request_id == input.request_id) r.receipts w.receipt
          w.is_new ((eq_iff w.receipt.request_id input.request_id).1 w.about) in
    let there : lookup w.receipt.order_id t.orders ≡ some saved = ground (
      arith,
      w.orders,
      w.of_order,
      lookup-put saved.id saved.id saved r.orders,
      eq_iff saved.id saved.id,
    ) in
    rw found (ground (arith, there, w.hash))

-- Once recorded, a checkout is a duplicate.
pub Stored-duplicate :
    (r : Repo) (input : CreateStoreOrder) (t : Repo) (saved : Order) (again : CreateStoreOrder)
    → Stored r input t saved
    → again.request_id ≡ input.request_id
    → create_store_order t again ≡ err store_order_duplicate
unfolding create_store_order
Stored-duplicate r input t saved again w same =
    let p = λ (s : StoreReceipt). s.request_id == again.request_id in
    let there : any p t.receipts ≡ true =
      ap (any p) w.receipts
      ∙ any-append p r.receipts (w.receipt ∷ [])
      ∙ ground (arith, eq_iff w.receipt.request_id again.request_id, w.about, same) in
    rw there refl
