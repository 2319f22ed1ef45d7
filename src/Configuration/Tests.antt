-- ===== src/Configuration/Tests.antt =====
-- The values of the pilot, stored as the first version.
use crm_silmer.Base.{
  ok, err, length, any, trim, String, ◌≡◌, refl, true, false, Option, some, [], ◌∷◌,
}
use crm_silmer.Base.Documents.{
  Json, bool, text, object, Fields, end, field, get, has_exactly, at_key,
}
use crm_silmer.Configuration.{
  conflict_error, is_json_value, are_json_values, have_json_values, is_non_empty, is_fab, is_pix,
  is_recipient, all_templates, are_templates, are_channels, all_flags, are_feature_flags,
}
use crm_silmer.Configuration.Service.{
  privileged, has_metadata, find_current, next_version, create, read_channel_configuration,
}
use crm_silmer.Configuration.Secrets.{names_secret, normalize_values-hides}
use crm_silmer.Configuration.History.{
  Call, run, read_version, read_channel_configuration-run, create-conflict,
}
use crm_silmer.Configuration.Versions.{
  normalize_values, Version, create_version, ChannelConfiguration,
}

abbrev enabled : Json
enabled = object (field "enabled" (bool true) end)

abbrev pilot_fields : Fields
pilot_fields =
    field "fab" (object (field "code" (text "01") (field "displayName" (text "FAB 01") end))) (
      field "pix"
        (object (field "keyReference" (text "secret://pix") (field "maskedKey" (text "***1") end)))
        (field "recipient"
          (object (
            field "name" (text "Rose")
              (field "phoneReference" (text "secret://crm/order-recipient-phone") end)))
          (field "templates"
            (object (
              field "hello" (object (field "enabled" (bool false) (field "version" (text "2") end)))
                end))
            (field "channels" (object (field "instagram" enabled (field "whatsapp" enabled end))) (
              field "featureFlags"
                (object (field "vendedor_silmer_autonomia_comercial" (bool false) end)) end)))))

abbrev pilot : Json
pilot = object pilot_fields

abbrev creation : String → Call
creation id = record {
  command = record {
    actor = some (record { id = "ana"; capabilities = "COMMERCIAL_ADMIN" ∷ [] });
    correlation_id = "corr-1";
    expected_version = 0;
    reason = "first";
    values = pilot;
  };
  id = id;
  now = 5;
  append_audit = λ e. true;
}

abbrev first : Version
first = record {
  created_at = 5;
  created_by = "ana";
  id = "v1";
  reason = "first";
  values = pilot;
  version = 1;
}

create-first : create (creation "v1").command "v1" 5 (λ e. true) [] ≡ ok (first, first ∷ [])
unfolding create privileged has_metadata find_current next_version create_version normalize_values
    is_non_empty is_fab is_pix is_recipient are_templates all_templates are_channels
    are_feature_flags all_flags is_json_value are_json_values have_json_values has_exactly get trim
create-first = refl

normalize_values-hides_example : any names_secret (at_key "pix" ∷ at_key "maskedKey" ∷ []) ≡ false
unfolding normalize_values is_fab is_pix is_recipient are_templates all_templates are_channels
    are_feature_flags all_flags is_json_value are_json_values have_json_values has_exactly get trim
    is_non_empty
normalize_values-hides_example =
    (normalize_values-hides pilot _ (at_key "pix" ∷ at_key "maskedKey" ∷ []) (text "***1") refl
      refl).0

read_channel_configuration-run_example :
    (o : Option ChannelConfiguration) × (read_channel_configuration
        (run [] (creation "v1" ∷ creation "v2" ∷ []))
      ≡ ok o)
    × (read_version o ≡ length (run [] (creation "v1" ∷ creation "v2" ∷ [])))
read_channel_configuration-run_example =
    read_channel_configuration-run (creation "v1" ∷ creation "v2" ∷ [])

create-conflict_example :
    create (creation "v2").command "v2" 5 (λ e. true) (first ∷ []) ≡ err conflict_error
unfolding run privileged has_metadata is_non_empty trim
create-conflict_example =
    create-conflict [] (creation "v1") (creation "v2")
      (record { id = "ana"; capabilities = "COMMERCIAL_ADMIN" ∷ [] }) create-first refl refl refl
