-- ===== src/Configuration.antt =====
-- modules/configuration/src/domain/configuration-version.js: the sections of a configuration and
-- their validation.
pub mod Versions
pub mod Service
pub mod Secrets
pub mod History
mod Tests
use Prim.Native.Char.{code}
use crm_silmer.Base.{
  leb, text_eq, nat_eq, ◌==◌, is_some, is_text, Result, ok, err, any, trim, ℕ, String, Bool, true,
  false, not, ◌&&◌, ◌||◌, Option, none, some, [], ◌∷◌,
}
use crm_silmer.Base.Documents.{
  Json, null, bool, number, not_finite, text, array, object, foreign, Items, nil, item, Fields, end,
  field, get, has_exactly,
}

pub data ConfigurationError : Type 0 where
  validation_error forbidden_error conflict_error port_error : ConfigurationError

abbrev pub Checked : Type 0 → Type 0
Checked A = Result ConfigurationError A

-- `SECRET_FIELD_NAMES`
abbrev pub is_secret : String → Bool
is_secret k =
    any (λ s. s == k)
      ("key" ∷ "password" ∷ "pixKey" ∷ "rawKey" ∷ "secret" ∷ "secretValue" ∷ "token" ∷ [])

-- `assertJsonValue`
unfoldable mutual
  pub is_json_value : Json → Bool
  is_json_value null = true
  is_json_value (bool b) = true
  is_json_value (number n) = true
  is_json_value not_finite = false
  is_json_value (text s) = true
  is_json_value (array vs) = are_json_values vs
  is_json_value (object fs) = have_json_values fs
  is_json_value foreign = false

  pub are_json_values : Items → Bool
  are_json_values nil = true
  are_json_values (item v vs) = is_json_value v && are_json_values vs

  pub have_json_values : Fields → Bool
  have_json_values end = true
  have_json_values (field k v fs) = not (is_secret k) && is_json_value v && have_json_values fs

-- A field as a record that `assertRecord` lets through, as a text and as a Boolean.
abbrev pub record_of : Option Json → Checked Fields
record_of (some (object fs)) = ok fs
record_of _ = err validation_error

abbrev pub record_at : String → Fields → Checked Fields
record_at k fs = record_of (get k fs)

abbrev pub text_of : Option Json → Option String
text_of (some (text s)) = some s
text_of _ = none

abbrev pub text_at : String → Fields → Option String
text_at k fs = text_of (get k fs)

abbrev pub bool_of : Option Json → Option Bool
bool_of (some (bool b)) = some b
bool_of _ = none

abbrev pub bool_at : String → Fields → Option Bool
bool_at k fs = bool_of (get k fs)

-- `assertNonEmptyString`
unfoldable pub is_non_empty : String → Bool
unfolding trim
is_non_empty s = not (trim s == "")

abbrev pub passes : (String → Bool) → Option String → Bool
passes p none = false
passes p (some s) = p s

unfoldable pub is_fab : Fields → Bool
unfolding has_exactly
is_fab fab =
    has_exactly ("code" ∷ "displayName" ∷ []) fab
    && is_text (text_at "code" fab) "01"
    && is_text (text_at "displayName" fab) "FAB 01"

-- `String.prototype.startsWith`, and `includes` of one character.
abbrev pub starts_with : String → String → Bool
starts_with String.[] s = true
starts_with (String.◌∷◌ c p) String.[] = false
starts_with (String.◌∷◌ c p) (String.◌∷◌ d s) = code c == code d && starts_with p s

abbrev pub includes_code : ℕ → String → Bool
includes_code n String.[] = false
includes_code n (String.◌∷◌ c s) = code c == n || includes_code n s

unfoldable pub is_pix : Fields → Bool
unfolding has_exactly is_non_empty
is_pix pix =
    has_exactly ("keyReference" ∷ "maskedKey" ∷ []) pix
    && passes (λ s. is_non_empty s && starts_with "secret://" s) (text_at "keyReference" pix)
    && passes (λ s. is_non_empty s && includes_code 42 s) (text_at "maskedKey" pix)

unfoldable pub is_recipient : Fields → Bool
unfolding has_exactly
is_recipient recipient =
    has_exactly ("name" ∷ "phoneReference" ∷ []) recipient
    && is_text (text_at "name" recipient) "Rose"
    && is_text (text_at "phoneReference" recipient) "secret://crm/order-recipient-phone"

abbrev pub is_template : Json → Bool
is_template (object template) =
    has_exactly ("enabled" ∷ "version" ∷ []) template
    && is_some (bool_at "enabled" template)
    && passes is_non_empty (text_at "version" template)
is_template _ = false

unfoldable pub all_templates : Fields → Bool
all_templates end = true
all_templates (field name template fs) = is_template template && all_templates fs

abbrev pub is_end : Fields → Bool
is_end end = true
is_end (field k v fs) = false

unfoldable pub are_templates : Fields → Bool
unfolding all_templates
are_templates templates = not (is_end templates) && all_templates templates

abbrev pub is_channel : Option Json → Bool
is_channel (some (object channel)) =
    has_exactly ("enabled" ∷ []) channel && is_some (bool_at "enabled" channel)
is_channel _ = false

unfoldable pub are_channels : Fields → Bool
unfolding has_exactly get
are_channels channels =
    has_exactly ("instagram" ∷ "whatsapp" ∷ []) channels
    && is_channel (get "instagram" channels)
    && is_channel (get "whatsapp" channels)

-- `/^[a-z][a-z0-9_]*$/u`
abbrev pub is_lower_letter : ℕ → Bool
is_lower_letter c = leb 97 c && leb c 122

abbrev pub are_flag_chars : String → Bool
are_flag_chars String.[] = true
are_flag_chars (String.◌∷◌ c s) =
    (is_lower_letter (code c) || leb 48 (code c) && leb (code c) 57 || code c == 95)
    && are_flag_chars s

abbrev pub is_flag_name : String → Bool
is_flag_name String.[] = false
is_flag_name (String.◌∷◌ c s) = is_lower_letter (code c) && are_flag_chars s

abbrev pub is_bool : Json → Bool
is_bool (bool b) = true
is_bool _ = false

unfoldable pub all_flags : Fields → Bool
all_flags end = true
all_flags (field name enabled fs) = is_flag_name name && is_bool enabled && all_flags fs

abbrev pub is_off : Option Bool → Bool
is_off none = false
is_off (some b) = not b

unfoldable pub are_feature_flags : Fields → Bool
unfolding all_flags
are_feature_flags flags =
    is_off (bool_at "vendedor_silmer_autonomia_comercial" flags) && all_flags flags
