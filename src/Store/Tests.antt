-- ===== src/Store/Tests.antt =====
-- A checkout of the site shop, and the instances of its theorems.
use crm_silmer.Base.{
  Result, ok, err, map_ok, lookup, values, ◌≡◌, refl, true, false, none, some, [], ◌∷◌,
}
use crm_silmer.Orders.{order_locked, Order, codes}
use crm_silmer.Orders.Repository.{Repo, added}
use crm_silmer.Orders.Repository.Stores.{
  CreateStoreOrder, audit_of, store_order, create_store_order,
}
use crm_silmer.Orders.Repository.Queries.{find_store_order}
use crm_silmer.Store.{
  StoreError, catalog_mismatch, repository_error, Checkout, Match, match_store_catalog,
}
use crm_silmer.Store.Service.{Setup, Call, Recorded, answered, creation, record_checkout}
use crm_silmer.Store.Sold.{IsSold}
use crm_silmer.Store.Products.{size_table, store_products}
use crm_silmer.Store.Retries.{
  again, record_checkout-again, record_checkout-race, record_checkout-IsSold,
}
use crm_silmer.Store.Built.{store_item, build_store_order, require_unlocked}

abbrev setup : Setup
setup = record {
  accept_test = false;
  fab_code = "SILMER";
  fingerprint = λ _. "hash";
  operational_day = λ _. codes "2026-07-01";
  phone_digest = λ _. "digest";
  products = store_products;
}

abbrev checkout : Checkout
checkout = record {
  request_id = "0f8fad5b-d9cb-469f-a165-70867728950e";
  store_number = "LJ-0F8FAD5B";
  test = false;
  product_slug = "bloquinho-22";
  color_id = "branca-rosa";
  size_id = "jeg";
  quantity = 3;
  lead_time_days = 1;
  amount_cents = 9000;
  customer_name = codes "Ana Lima";
  customer_phone = codes "5527999991234";
  delivery_cep = none;
  payment = record {
    gateway = "infinitepay";
    method = "pix";
    transaction_nsu = "nsu-1";
    invoice_slug = "slug-1";
    paid_amount_cents = 9000;
    paid_at = 5000000;
    receipt_url = some "https://recibo.infinitepay.io/1";
  };
}

abbrev empty_repo : Repo
empty_repo = record { orders = []; events = []; receipts = []; audits = []; sequence = 0 }

abbrev call : Call
call = record {
  audit = record { actor = "n8n"; correlation_id = "c1" };
  id = "order-1";
  now = 5100000;
  reconciled_at = 5100000;
}

abbrev refused : Checkout
refused = record checkout { amount_cents = 6000 }

refused-mismatch : match_store_catalog store_products true 5100000 refused ≡ err catalog_mismatch
unfolding match_store_catalog
refused-mismatch = refl

abbrev the_match : Match
the_match = record {
  color = record {
    nome = codes "Branco";
    prazo_dias_uteis = 1;
    estampa = some (codes "Bloquinho 22 — rosa");
  };
  price_cents = 9000;
  product = record {
    slug = "bloquinho-22";
    nome = codes "Bloquinho 22";
    tipo = codes "Camiseta";
    publico = codes "masculino";
    malha = codes "Dry fit liso de poliéster";
    gola = codes "Gola redonda";
    preco_centavos = 3000;
    preco_teste_centavos = 100;
    pecas_por_kit = 1;
    quantidade_maxima = some 10;
    cores =
        (
          "branca-amarela",
          record {
            nome = codes "Branco";
            prazo_dias_uteis = 1;
            estampa = some (codes "Bloquinho 22 — amarela");
          },
        )
        ∷ (
          "branca-rosa",
          record {
            nome = codes "Branco";
            prazo_dias_uteis = 1;
            estampa = some (codes "Bloquinho 22 — rosa");
          },
        )
        ∷ (
          "branca-azul",
          record {
            nome = codes "Branco";
            prazo_dias_uteis = 1;
            estampa = some (codes "Bloquinho 22 — azul");
          },
        )
        ∷ (
          "branca-preta",
          record {
            nome = codes "Branco";
            prazo_dias_uteis = 1;
            estampa = some (codes "Bloquinho 22 — preta");
          },
        )
        ∷ (
          "branca-verde",
          record {
            nome = codes "Branco";
            prazo_dias_uteis = 1;
            estampa = some (codes "Bloquinho 22 — verde");
          },
        )
        ∷ [];
    tamanhos = size_table;
  };
  size = codes "JEGÃO";
}

abbrev input : CreateStoreOrder
input = creation setup the_match checkout call

abbrev saved : Order
saved = store_order input 1

abbrev recorded : Recorded
recorded = record {
  repo = record (added empty_repo saved "c1") {
    receipts =
        record {
          request_id = input.request_id;
          phone_digest = "digest";
          record_sha256 = "hash";
          order_id = "order-1";
          received_at = 5100000;
        }
        ∷ [];
    audits =
        audit_of saved "store.order.create" "INFINITEPAY_PAYMENT_CONFIRMED" call.audit 5100000 ∷ [];
  };
  order = saved;
  created = true;
  receipt_attached = false;
}

record_checkout-first : record_checkout setup empty_repo empty_repo checkout call ≡ ok recorded
unfolding record_checkout find_store_order match_store_catalog create_store_order build_store_order
    lookup values
record_checkout-first = refl

abbrev retry_match : Result StoreError Match
retry_match = match_store_catalog store_products false 5100000 (again checkout 5200000 false)

match-again : retry_match ≡ ok the_match
unfolding match_store_catalog
match-again = refl

unseen : find_store_order empty_repo checkout.request_id ≡ none
unfolding find_store_order
unseen = refl

record_checkout-again_example :
    record_checkout setup recorded.repo empty_repo (again checkout 5200000 false) call
    ≡ ok (answered recorded.repo saved)
record_checkout-again_example =
    record_checkout-again setup setup empty_repo empty_repo empty_repo checkout call call recorded
      5200000 false refl record_checkout-first refl

record_checkout-race_example :
    record_checkout setup empty_repo recorded.repo (again checkout 5200000 false) call
    ≡ map_ok
        (λ (m : Match). answered recorded.repo recorded.order)
        (match_store_catalog setup.products setup.accept_test call.now
          (again checkout 5200000 false))
record_checkout-race_example =
    record_checkout-race setup setup empty_repo empty_repo empty_repo checkout call call recorded
      5200000 false refl record_checkout-first refl unseen

record_checkout-IsSold_example :
    (m : Match) × IsSold store_products false checkout m
    × (recorded.order.final_amount_cents ≡ some 9000)
    × (recorded.order.total_pieces ≡ 3)
    × (recorded.order.ficha.items ≡ store_item m 3 ∷ [])
    × (require_unlocked recorded.order ≡ err (repository_error order_locked))
    × (lookup recorded.order.id recorded.repo.orders ≡ some recorded.order)
unfolding build_store_order
record_checkout-IsSold_example =
    record_checkout-IsSold setup empty_repo empty_repo checkout call recorded record_checkout-first
      refl
