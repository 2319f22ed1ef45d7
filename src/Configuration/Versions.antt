-- ===== src/Configuration/Versions.antt =====
-- modules/configuration/src/domain/configuration-version.js: the values of a configuration by
-- section, its version, and the part of it that the channels read.
-- The values by section; `normalizeConfigurationValues` gives them back as they came.
use crm_silmer.Base.{leb, ok, err, guard, ◌>>=◌, ◌>>◌, values, trim, ℕ, String, Bool, ◌&&◌, [], ◌∷◌}
use crm_silmer.Base.Documents.{Json, object, Fields, has_exactly}
use crm_silmer.Configuration.{
  validation_error, Checked, is_json_value, record_at, is_non_empty, is_fab, is_pix, is_recipient,
  are_templates, are_channels, are_feature_flags,
}

pub record Sections : Type 0 where
  pub values : Fields
  pub fab : Fields
  pub pix : Fields
  pub recipient : Fields
  pub templates : Fields
  pub channels : Fields
  pub feature_flags : Fields

abbrev pub fields_of : Json → Checked Fields
fields_of (object fs) = ok fs
fields_of _ = err validation_error

unfoldable pub normalize_values : Json → Checked Sections
unfolding is_fab is_pix is_recipient are_templates are_channels are_feature_flags
normalize_values json = do
  values ← fields_of json
  guard
      (has_exactly ("channels" ∷ "fab" ∷ "featureFlags" ∷ "pix" ∷ "recipient" ∷ "templates" ∷ [])
          values
        && is_json_value json)
      validation_error
  fab ← record_at "fab" values
  guard (is_fab fab) validation_error
  pix ← record_at "pix" values
  guard (is_pix pix) validation_error
  recipient ← record_at "recipient" values
  guard (is_recipient recipient) validation_error
  templates ← record_at "templates" values
  guard (are_templates templates) validation_error
  channels ← record_at "channels" values
  guard (are_channels channels) validation_error
  feature_flags ← record_at "featureFlags" values
  guard (are_feature_flags feature_flags) validation_error
  ok (record {
    values = values;
    fab = fab;
    pix = pix;
    recipient = recipient;
    templates = templates;
    channels = channels;
    feature_flags = feature_flags;
  })

pub record Version : Type 0 where
  pub created_at : ℕ
  pub created_by : String
  pub id : String
  pub reason : String
  pub values : Json
  pub version : ℕ

-- `Number.isSafeInteger`
abbrev pub is_safe : ℕ → Bool
is_safe n = leb n 9007199254740991

unfoldable pub create_version : Version → Checked Version
unfolding is_non_empty trim
create_version input = do
  guard
      (is_non_empty input.id
        && is_non_empty input.created_by
        && is_non_empty input.reason
        && leb 1 input.version
        && is_safe input.version)
      validation_error
  sections ← normalize_values input.values
  ok (record input { reason = trim input.reason })

-- The projection for the channels' runtimes.
pub record ChannelConfiguration : Type 0 where
  pub channels : Fields
  pub feature_flags : Fields
  pub version : ℕ

unfoldable pub channel_configuration : Version → Checked ChannelConfiguration
channel_configuration v = do
  guard (leb 1 v.version && is_safe v.version) validation_error
  sections ← normalize_values v.values
  ok (record {
    channels = sections.channels;
    feature_flags = sections.feature_flags;
    version = v.version;
  })
