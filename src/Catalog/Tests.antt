-- ===== src/Catalog/Tests.antt =====
-- A catalog of one shirt, published and selected from.
use crm_silmer.Base.{ok, trim, ◌≡◌, refl, subst, true, some, [], ◌∷◌}
use crm_silmer.Catalog.{
  Values, is_non_empty, is_code, is_entry, is_model, validate_from, validate_entries,
  normalize_catalog_values, Version, create_published_version, Selection, SelectionInput,
}
use crm_silmer.Catalog.Valid.{IsCatalog, normalize_catalog_values_iff}
use crm_silmer.Catalog.Service.{latest_from, privileged, append, next_version, publish, select}
use crm_silmer.Catalog.Versions.{AreVersions, Call, run, run-AreVersions}
use crm_silmer.Catalog.Selections.{Selects, select-ok}

abbrev shirts : Values
shirts = record {
  products = record { code = "CAMISA"; name = "Camisa" } ∷ [];
  models =
      record { entry = record { code = "M-1"; name = "Gola V" }; product_code = "CAMISA" } ∷ [];
  materials = record { code = "DRY"; name = "Dry fit" } ∷ [];
  techniques = record { code = "SUB"; name = "Sublimado" } ∷ [];
}

abbrev publication : Call
publication = record {
  input = record {
    actor = some (record { id = "ana"; capabilities = "COMMERCIAL_ADMIN" ∷ [] });
    correlation_id = "corr-1";
    reason = " first ";
    values = shirts;
  };
  id = "v1";
  now = 5;
  append_audit = λ e. true;
}

abbrev choice : SelectionInput
choice = record {
  catalog_version_id = "v1";
  material_code = "DRY";
  model_code = "M-1";
  technique_code = "SUB";
}

abbrev first : Version
first = record {
  id = "v1";
  number = 1;
  published_at = 5;
  published_by = "ana";
  reason = "first";
  values = shirts;
}

-- The second publication has the first one's id and is refused.
run-first : run [] (publication ∷ publication ∷ []) ≡ first ∷ []
unfolding run publish privileged is_non_empty latest_from create_published_version append
    normalize_catalog_values validate_entries validate_from is_entry is_model is_code trim
    next_version
run-first = refl

normalize_catalog_values_iff_example : IsCatalog shirts
unfolding normalize_catalog_values validate_entries validate_from is_entry is_model is_code trim
normalize_catalog_values_iff_example = (normalize_catalog_values_iff shirts).0 refl

empty-AreVersions : AreVersions []
empty-AreVersions = record { numbered = tt; distinct = tt; made = tt }

run-AreVersions_example : AreVersions (run [] (publication ∷ publication ∷ []))
run-AreVersions_example = run-AreVersions (publication ∷ publication ∷ []) [] empty-AreVersions

first-AreVersions : AreVersions (first ∷ [])
first-AreVersions =
    subst AreVersions run-first
      (run-AreVersions (publication ∷ publication ∷ []) [] empty-AreVersions)

select-ok_example : (s : Selection) × (select choice (first ∷ []) ≡ ok s) × Selects first choice s
select-ok_example = select-ok (first ∷ []) first choice first-AreVersions refl refl refl refl
