-- ===== src/Store.antt =====
-- modules/orders/src/domain/store-order.js and store-catalog.js: a paid order of the site shop,
-- checked against the catalog and built. The record is as `parseStoreOrderRecord` leaves it; an
-- instant is its milliseconds, also where the source keeps its ISO text. `operationalDay` and the
-- hash of the fingerprint are parameters.
pub mod Built
pub mod Products
pub mod Service
pub mod Sold
pub mod Recorded
pub mod Retries
mod Tests
use crm_silmer.Base.{
  ltb, leb, text_eq, nat_eq, ◌==◌, Result, ok, guard, or_throw, ◌>>=◌, ◌>>◌, Table, lookup, ℕ, ◌+◌,
  ◌*◌, String, Bool, not, ◌&&◌, ◌||◌, Option, none, some, List, [], ◌∷◌,
}
use crm_silmer.Orders.{
  Origin, loja, PaymentCondition, pix, CreatedByKind, automation, OrderStatus, confirmado,
}
use crm_silmer.Orders.{Text, tipo, gola, OrderError}

pub data StoreError : Type 0 where
  test_refused payment_method_unsupported catalog_mismatch amount_below_price : StoreError
  invalid_paid_at conflict : StoreError
  repository_error : OrderError → StoreError

pub record StoreColor : Type 0 where
  pub nome : Text
  pub prazo_dias_uteis : ℕ
  pub estampa : Option Text

pub record StoreProduct : Type 0 where
  pub slug : String
  pub nome : Text
  pub tipo : Text
  pub publico : Text
  pub malha : Text
  pub gola : Text
  pub preco_centavos : ℕ
  pub preco_teste_centavos : ℕ
  pub pecas_por_kit : ℕ
  pub quantidade_maxima : Option ℕ
  pub cores : Table StoreColor
  pub tamanhos : Table Text

pub record StorePayment : Type 0 where
  pub gateway : String
  pub method : String
  pub transaction_nsu : String
  pub invoice_slug : String
  pub paid_amount_cents : ℕ
  pub paid_at : ℕ
  pub receipt_url : Option String

-- `StoreOrderRecord`
pub record Checkout : Type 0 where
  pub request_id : String
  pub store_number : String
  pub test : Bool
  pub product_slug : String
  pub color_id : String
  pub size_id : String
  pub quantity : ℕ
  pub lead_time_days : ℕ
  pub amount_cents : ℕ
  pub customer_name : Text
  pub customer_phone : Text
  pub delivery_cep : Option Text
  pub payment : StorePayment

-- What `storeRecordFingerprint` hashes: the entries of its array, in their order.
pub data Entry : Type 0 where
  string : String → Entry
  letters : Text → Entry
  integer : ℕ → Entry
  boolean : Bool → Entry

abbrev pub cep_entry : Option Text → List Entry
cep_entry none = []
cep_entry (some cep) = letters cep ∷ []

unfoldable pub fingerprint_entries : Checkout → List Entry
fingerprint_entries c =
    string c.request_id
    ∷ string c.store_number
    ∷ boolean c.test
    ∷ string c.product_slug
    ∷ string c.color_id
    ∷ string c.size_id
    ∷ integer c.quantity
    ∷ integer c.lead_time_days
    ∷ integer c.amount_cents
    ∷ letters c.customer_name
    ∷ letters c.customer_phone
    ∷ string c.payment.gateway
    ∷ string c.payment.method
    ∷ string c.payment.transaction_nsu
    ∷ string c.payment.invoice_slug
    ∷ integer c.payment.paid_amount_cents
    ∷ integer c.payment.paid_at
    ∷ cep_entry c.delivery_cep

-- `STORE_PAYMENT_GATEWAY` and `STORE_PAYMENT_METHOD`
abbrev pub is_supported : StorePayment → Bool
is_supported p = p.gateway == "infinitepay" && p.method == "pix"

-- The pieces that a product is sold in.
abbrev pub is_quantity : StoreProduct → ℕ → Bool
is_quantity p n = elim p.quantidade_maxima [
  | none ↦ n == p.pecas_por_kit
  | some most ↦ leb 1 n && leb n most
]

abbrev pub catalog_price : StoreProduct → ℕ → ℕ
catalog_price p n = elim p.quantidade_maxima [
  | none ↦ p.preco_centavos
  | some most ↦ p.preco_centavos * n
]

abbrev pub is_price : StoreProduct → Checkout → Bool
is_price p c =
    c.amount_cents == catalog_price p c.quantity
    || c.test && c.amount_cents == p.preco_teste_centavos

-- `PAID_AT_MAX_AGE_MS` and `PAID_AT_MAX_SKEW_MS`
abbrev pub is_explainable : ℕ → ℕ → Bool
is_explainable paid_at now =
    not (ltb (paid_at + 2592000000) now) && not (ltb (now + 300000) paid_at)

pub record Match : Type 0 where
  pub color : StoreColor
  pub price_cents : ℕ
  pub product : StoreProduct
  pub size : Text

-- `matchStoreCatalog`, over the products that the shop sells.
unfoldable pub match_store_catalog :
    Table StoreProduct → (accept_test : Bool) → ℕ → Checkout → Result StoreError Match
unfolding lookup
match_store_catalog products accept_test now c = do
  guard (not c.test || accept_test) test_refused
  guard (is_supported c.payment) payment_method_unsupported
  product ← or_throw (lookup c.product_slug products) catalog_mismatch
  color ← or_throw (lookup c.color_id product.cores) catalog_mismatch
  tamanho ← or_throw (lookup c.size_id product.tamanhos) catalog_mismatch
  guard (is_quantity product c.quantity) catalog_mismatch
  guard (c.lead_time_days == color.prazo_dias_uteis) catalog_mismatch
  guard (is_price product c) catalog_mismatch
  guard (not (ltb c.payment.paid_amount_cents c.amount_cents)) amount_below_price
  guard (is_explainable c.payment.paid_at now) invalid_paid_at
  ok (record { color = color; price_cents = c.amount_cents; product = product; size = tamanho })
