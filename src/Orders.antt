-- ===== src/Orders.antt =====
-- modules/orders/src/domain: the order, its ficha and its errors (`order.js`, `ficha.js`,
-- `errors.js`). A text that the code looks into is the list of its code points; an id, an envelope
-- or a name that it only compares is a `String`. Instants are milliseconds. What
-- `operationalDay` prints of an instant comes from `Intl.DateTimeFormat` and is a parameter.
pub mod Calendar
pub mod Confirmation
pub mod Ready
pub mod Money
pub mod Amounts
pub mod Sizes
pub mod Lines
pub mod Pairs
pub mod Tokens
pub mod Grades
mod Tests
mod SizeTests
pub mod Repository
use Prim.Native.Char.{code}
use crm_silmer.Base.{
  ltb, leb, all, is_space, ℕ, String, Bool, true, false, ◌&&◌, Option, none, some, List, [], ◌∷◌,
}

abbrev pub Text : Type 0
Text = List ℕ

pub data OrderStatus : Type 0 where
  pendente confirmado : OrderStatus

pub data PaymentCondition : Type 0 where
  pix cartao_credito cartao_debito : PaymentCondition

pub data Origin : Type 0 where
  atendimento loja : Origin

pub data CreatedByKind : Type 0 where
  automation user : CreatedByKind

pub record GradeLine : Type 0 where
  pub tamanho : Text
  pub quantidade : ℕ

-- The principal points of an item (`ITEM_REQUIRED_FIELDS`) and, by name, its other texts. `none` is
-- a value that is absent or no text.
pub record FichaItem : Type 0 where
  pub tipo : Option Text
  pub cor : Option Text
  pub tipo_servico : Option Text
  pub malhas : List Text
  pub grade : List GradeLine
  pub gola : Option Text
  pub extras : List (String × Text)

pub record FichaSummary : Type 0 where
  pub data_entrega_confirmada : Option Text
  pub nome : Option Text
  pub cliente : Text
  pub aplicacao : Option Text

pub record FichaArtwork : Type 0 where
  pub feito_pelo_cliente : Bool
  pub feito_pela_silmer : Bool
  pub sem_estampa : Bool
  pub files : List String

-- The block of a store order; `details` stands for what the repository only copies.
pub record StoreFicha : Type 0 where
  pub comprovante_url : Option String
  pub details : List (String × Text)

pub record Ficha : Type 0 where
  pub summary : FichaSummary
  pub items : List FichaItem
  pub observations : List Text
  pub artwork : Option FichaArtwork
  pub service_data : List (String × Text)
  pub store : Option StoreFicha

pub data Field : Type 0 where
  tipo cor tipo_servico malhas grade gola : Field

-- What keeps an order from being generated: `items`, `items[N].<field>`, `artwork`,
-- `summary.data_entrega_confirmada`, `finalAmount`, `paymentCondition`.
pub data Blocker : Type 0 where
  no_items artwork delivery_day final_amount payment_condition : Blocker
  item_field : ℕ → Field → Blocker

pub data Milestone : Type 0 where
  paid_on delivered_on : Milestone

pub data OrderError : Type 0 where
  type_error order_status_conflict version_conflict order_pending_exists : OrderError
  idempotency_key_reused order_locked subject_target_invalid order_not_found : OrderError
  store_order_duplicate store_order_conflict invalid_amount : OrderError
  order_not_confirmable : List Blocker → OrderError
  invalid_date : List Milestone → OrderError

pub record GatewayPayment : Type 0 where
  pub transaction_nsu : String
  pub confirmed_at : ℕ

pub record Order : Type 0 where
  pub id : String
  pub number : Text
  pub number_sequence : ℕ
  pub conversation_id : Option String
  pub contact_id : Option String
  pub manual_owner_id : Option String
  pub manual_create_key : Option String
  pub status : OrderStatus
  pub fab_code : String
  pub origin : Origin
  pub is_test : Bool
  pub store_number : Option String
  pub lead_time_business_days : Option ℕ
  pub gateway_payment : Option GatewayPayment
  pub ficha_first_printed_at : Option ℕ
  pub ficha_first_printed_by : Option String
  pub ficha : Ficha
  pub total_pieces : ℕ
  pub missing_fields : List Blocker
  pub final_amount_cents : Option ℕ
  pub payment_condition : Option PaymentCondition
  pub order_date : Option Text
  pub confirmed_at : Option ℕ
  pub confirmed_by : Option String
  pub reopened_at : Option ℕ
  pub reopened_by : Option String
  pub first_contact_at : Option ℕ
  pub paid_on : Option Text
  pub delivered_on : Option Text
  pub created_by_kind : CreatedByKind
  pub created_by : Option String
  pub version : ℕ
  pub created_at : ℕ
  pub updated_at : ℕ

abbrev pub is_pendente : OrderStatus → Bool
is_pendente pendente = true
is_pendente confirmado = false

abbrev pub is_loja : Origin → Bool
is_loja loja = true
is_loja atendimento = false

-- `value.trim() === ''`
unfoldable pub is_blank : Text → Bool
unfolding is_space
is_blank t = all is_space t

abbrev pub is_blank? : Option Text → Bool
is_blank? none = true
is_blank? (some t) = is_blank t

-- `Number.isSafeInteger(value) && value > 0`
abbrev pub max_safe_integer : ℕ
max_safe_integer = 9007199254740991

unfoldable pub is_positive_safe : Option ℕ → Bool
is_positive_safe none = false
is_positive_safe (some n) = ltb 0 n && leb n max_safe_integer

-- The code points of a text that is otherwise only compared.
abbrev pub codes : String → Text
codes String.[] = []
codes (String.◌∷◌ c s) = code c ∷ codes s
