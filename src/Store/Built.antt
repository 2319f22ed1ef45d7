-- ===== src/Store/Built.antt =====
-- modules/orders/src/domain/store-order.js: `buildStoreOrder`, the order of a matched checkout.
use crm_silmer.Base.{
  is_some, Result, guard, ℕ, String, false, not, Option, none, some, List, [], ◌∷◌, ◌++◌,
}
use crm_silmer.Orders.{loja, pix, automation, confirmado}
use crm_silmer.Orders.{Text, FichaItem, Ficha, order_locked, GatewayPayment, Order, is_loja, codes}
use crm_silmer.Store.{StoreError, repository_error, Checkout, Match}

abbrev pub or_blank : Option Text → Text
or_blank none = []
or_blank (some t) = t

-- `blankItem` with what the shop knows of the piece; `quantidade_informada`, which is null, is no
-- text.
abbrev pub store_item : Match → ℕ → FichaItem
store_item m quantity = record {
  tipo = some m.product.tipo;
  cor = some m.color.nome;
  tipo_servico = some [];
  malhas = m.product.malha ∷ [];
  grade = record { tamanho = m.size; quantidade = quantity } ∷ [];
  gola = some m.product.gola;
  extras =
      ("cor_costas", [])
      ∷ ("cor_frente", [])
      ∷ ("cor_manga_direita", [])
      ∷ ("cor_manga_esquerda", [])
      ∷ ("estampa", or_blank m.color.estampa)
      ∷ ("modelo", [])
      ∷ ("publico", m.product.publico)
      ∷ ("vies_gola", [])
      ∷ ("vies_mangas", [])
      ∷ [];
}

-- The sentence on the delivery, with the CEP in it.
abbrev pub delivery_note : Option Text → List Text
delivery_note none = []
delivery_note (some cep) =
    (codes "Dados de envio — CEP: "
      ++ (cep ++ codes ". Entrar em contato para pegar as informações de entrega."))
    ∷ []

abbrev pub store_ficha : Checkout → Match → Ficha
store_ficha c m = record {
  summary = record {
    data_entrega_confirmada = none;
    nome = none;
    cliente = c.customer_name;
    aplicacao = none;
  };
  items = store_item m c.quantity ∷ [];
  observations = delivery_note c.delivery_cep;
  artwork = some (record {
    feito_pelo_cliente = false;
    feito_pela_silmer = is_some m.color.estampa;
    sem_estampa = not (is_some m.color.estampa);
    files = [];
  });
  service_data = [];
  store = some (record {
    comprovante_url = c.payment.receipt_url;
    details =
        ("produto.nome", m.product.nome)
        ∷ ("produto.slug", codes m.product.slug)
        ∷ ("telefone", c.customer_phone)
        ∷ [];
  });
}

abbrev pub gateway_payment_of : Checkout → GatewayPayment
gateway_payment_of c = record {
  transaction_nsu = c.payment.transaction_nsu;
  confirmed_at = c.payment.paid_at;
}

-- `buildStoreOrder`; the repository sets the number, the version and the times of writing.
unfoldable pub build_store_order :
    (operational_day : ℕ → Text) (fab_code id : String) → Match → ℕ → Checkout → Order
build_store_order operational_day fab_code id m now c = record {
  id = id;
  number = [];
  number_sequence = 0;
  conversation_id = none;
  contact_id = none;
  manual_owner_id = none;
  manual_create_key = none;
  status = confirmado;
  fab_code = fab_code;
  origin = loja;
  is_test = c.test;
  store_number = some c.store_number;
  lead_time_business_days = some m.color.prazo_dias_uteis;
  gateway_payment = some (gateway_payment_of c);
  ficha_first_printed_at = none;
  ficha_first_printed_by = none;
  ficha = store_ficha c m;
  total_pieces = c.quantity;
  missing_fields = [];
  final_amount_cents = some m.price_cents;
  payment_condition = some pix;
  order_date = some (operational_day c.payment.paid_at);
  confirmed_at = some now;
  confirmed_by = some "system:loja-do-site";
  reopened_at = none;
  reopened_by = none;
  first_contact_at = some c.payment.paid_at;
  paid_on = some (operational_day c.payment.paid_at);
  delivered_on = none;
  created_by_kind = automation;
  created_by = some "system:loja-do-site";
  version = 0;
  created_at = now;
  updated_at = now;
}

-- `requireUnlocked`
unfoldable pub require_unlocked : Order → Result StoreError (Unit {0})
require_unlocked order = guard (not (is_loja order.origin)) (repository_error order_locked)
