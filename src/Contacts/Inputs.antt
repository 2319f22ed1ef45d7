-- ===== src/Contacts/Inputs.antt =====
-- modules/contacts/src/domain/identity.js: what comes in, and its normalization. A field of an
-- input is a text, null or something else; `function_name` is what `String` makes of the value,
-- and `expected_version` what `Number` makes of it when that is a whole number that is not
-- negative. The texts' lower case and the reading of an instant are the language's own tables and
-- are parameters: `read_instant` gives the milliseconds of a text that `toISOString` writes in the
-- same way.
use Prim.Native.String.{String, len}
use Prim.Native.Char.{code}
use crm_silmer.Base.{
  leb, text_eq, nat_eq, ◌==◌, if◌then◌else◌, Result, ok, err, guard, or_throw, ◌>>=◌, ◌>>◌, trim, ℕ,
  Bool, true, false, not, ◌&&◌, ◌||◌, Option, none, some,
}
use crm_silmer.Contacts.{ContactError, forbidden_error, validation_error, Inbound}

pub data Value : Type 0 where
  text : String → Value
  null something_else : Value

pub record Tables : Type 0 where
  pub to_lower_case : String → String
  pub read_instant : String → Option ℕ

abbrev pub Checked : Type 0 → Type 0
Checked A = Result ContactError A

unfoldable pub required_string : Value → ℕ → Checked String
unfolding trim
required_string (text value) maximum = do
  guard (not (trim value == "") && value == trim value && leb (len value) maximum) validation_error
  ok value
required_string null maximum = err validation_error
required_string something_else maximum = err validation_error

unfoldable pub canonical_instant : Tables → Value → Checked ℕ
unfolding required_string
canonical_instant tables value = do
  string ← required_string value 64
  or_throw (tables.read_instant string) validation_error

pub record ActorInput : Type 0 where
  pub kind : Value
  pub function_name : String
  pub id : Value

abbrev pub is_value : Value → String → Bool
is_value (text s) t = s == t
is_value null t = false
is_value something_else t = false

-- `requireHumanOperator`; an operator's function and kind are then known.
unfoldable pub require_human_operator : Option ActorInput → Checked String
unfolding required_string
require_human_operator none = err forbidden_error
require_human_operator (some actor) = do
  guard (is_value actor.kind "human" && actor.function_name == "Vendedor") forbidden_error
  required_string actor.id 128

pub record IdentityInput : Type 0 where
  pub channel : Value
  pub correlation_id : Value
  pub display_handle : Value
  pub external_identity_id : Value
  pub identity_kind : Value
  pub occurred_at : Value
  pub phone_status : Value
  pub provider : Value
  pub provider_account_id : Value

-- `[A-Za-z0-9._]`
abbrev pub is_handle_char : ℕ → Bool
is_handle_char c =
    leb 65 c && leb c 90 || leb 97 c && leb c 122 || leb 48 c && leb c 57 || c == 46 || c == 95

abbrev pub all_handle_chars : String → Bool
all_handle_chars String.[] = true
all_handle_chars (String.◌∷◌ c s) = is_handle_char (code c) && all_handle_chars s

-- `/^@[A-Za-z0-9._]+$/u`
abbrev pub is_handle : String → Bool
is_handle String.[] = false
is_handle (String.◌∷◌ c s) = code c == 64 && not (s == "") && all_handle_chars s

-- What `displayHandle` is for a channel; `none` where the channel does not take it.
abbrev pub handle_of : String → Value → Option (Option String)
handle_of channel (text s) = if channel == "instagram" && is_handle s then some (some s) else none
handle_of channel null = if channel == "whatsapp" then some none else none
handle_of channel something_else = none

abbrev pub fits_channel : (channel identity_kind phone_status : String) → Bool
fits_channel channel identity_kind phone_status =
    channel == "instagram" && identity_kind == "handle" && phone_status == "pending"
    || channel == "whatsapp" && identity_kind == "phone" && phone_status == "confirmed"

abbrev pub required_handle : Option String → Checked (Unit {0})
unfolding required_string
required_handle none = ok tt
required_handle (some s) = required_string (text s) 256 >>= λ checked. ok tt

unfoldable pub normalize_inbound_identity : Tables → IdentityInput → Checked Inbound
unfolding required_string required_handle canonical_instant
normalize_inbound_identity tables input = do
  provider ← required_string input.provider 64
  guard (provider == tables.to_lower_case provider) validation_error
  channel ← required_string input.channel 32
  identity_kind ← required_string input.identity_kind 32
  phone_status ← required_string input.phone_status 32
  guard (fits_channel channel identity_kind phone_status) validation_error
  display_handle ← or_throw (handle_of channel input.display_handle) validation_error
  required_handle display_handle
  correlation_id ← required_string input.correlation_id 128
  external_identity_id ← required_string input.external_identity_id 512
  occurred_at ← canonical_instant tables input.occurred_at
  provider_account_id ← required_string input.provider_account_id 512
  ok (record {
    channel = channel;
    correlation_id = correlation_id;
    display_handle = display_handle;
    external_identity_id = external_identity_id;
    identity_kind = identity_kind;
    occurred_at = occurred_at;
    phone_status = phone_status;
    provider = provider;
    provider_account_id = provider_account_id;
  })

pub record HumanInput : Type 0 where
  pub actor : Option ActorInput
  pub expected_version : Option ℕ
  pub correlation_id : Value
  pub idempotency_key : Value
  pub reason : Value

pub record Normalized : Type 0 where
  pub actor_id : String
  pub correlation_id : String
  pub expected_version : ℕ
  pub idempotency_key : String
  pub reason : String

-- `Number.isSafeInteger` and the lower bound.
abbrev pub is_version : ℕ → Bool
is_version n = leb 1 n && leb n 9007199254740991

-- What both operations of `normalizeHumanCommand` check.
unfoldable pub normalize_human_command : HumanInput → Checked Normalized
unfolding required_string require_human_operator
normalize_human_command input = do
  actor_id ← require_human_operator input.actor
  expected_version ← or_throw input.expected_version validation_error
  guard (is_version expected_version) validation_error
  correlation_id ← required_string input.correlation_id 128
  idempotency_key ← required_string input.idempotency_key 512
  reason ← required_string input.reason 2048
  ok (record {
    actor_id = actor_id;
    correlation_id = correlation_id;
    expected_version = expected_version;
    idempotency_key = idempotency_key;
    reason = reason;
  })
