-- ===== src/Qualification/Tests.antt =====
-- A patch with an item and its artwork, and an assessment that stays open.
use crm_silmer.Base.{
  any, all, lookup, put, values, String, ◌≡◌, refl, ◌↔◌, Bool, true, false, none, some, List, [],
  ◌∷◌,
}
use crm_silmer.Qualification.{ready, divergent, Assessment, State, empty_state}
use crm_silmer.Qualification.Registry.{
  produto, especificacao, split_dots, resolve_field, is_applicable,
}
use crm_silmer.Qualification.Gates.{
  latest_from, latest, sets_aside, gate_blockers, belongs_to, keeps_open, unsorted_blockers,
}
use crm_silmer.Qualification.Evaluate.{not_after, evaluate}
use crm_silmer.Qualification.Patches.{ItemPatch, Patch, Texts}
use crm_silmer.Qualification.Sound.{run, AreSound, run-AreSound}
use crm_silmer.Qualification.Blocked.{evaluate-complete_iff}

abbrev texts : Texts
texts = record { encrypt = λ value scope. value; lower_case = λ s. s; plain_capitals = λ s. s }

abbrev shirt : ItemPatch
shirt = record {
  id = "i1";
  removes = false;
  catalog_version_id = none;
  product_code = none;
  model_code = none;
  fabrics = none;
  estimated_quantity = some 20;
  colors = none;
  grade = none;
}

abbrev patch : Patch
patch = record {
  deal_id = "d1";
  order = some (record { commercial_intent = some true; customer = some "Ana"; name = none });
  items = (shirt, none) ∷ [];
  artwork = some (record {
    catalog_version_id = none;
    technique_code = none;
    status = some ready;
    colors = none;
    files = some (record { id = "f1"; item_id = "i1" } ∷ []);
    locations = none;
    responsibility = none;
  });
  artwork_snapshot = none;
  logistics = none;
  observations = none;
  assessments = record { field = "order.customer"; reason = none; status = divergent } ∷ [];
  fields_fingerprint = "f";
  reason_code = "r";
  reason_detail = none;
  resulting_version = 1;
}

nothing-AreSound : AreSound []
unfolding lookup
nothing-AreSound deal_id = record { distinct = tt; anchored = refl }

run-AreSound_example : AreSound (run texts (patch ∷ patch ∷ []) [])
run-AreSound_example = run-AreSound texts (patch ∷ patch ∷ []) [] nothing-AreSound

abbrev doubt : Assessment
doubt = record {
  field = "order.customer";
  status = divergent;
  reason_envelope = none;
  resulting_version = 1;
}

abbrev doubtful : State
doubtful = record empty_state {
  assessments = doubt ∷ [];
  order = some (record {
    commercial_intent = some true;
    customer_envelope = some "Ana";
    name_envelope = some "Time";
  });
}

abbrev in_order : String → String → Bool
in_order a b = true

evaluate-complete_iff_example : ((evaluate in_order doubtful especificacao).complete ≡ true) ↔ (
    (all (sets_aside doubtful) (gate_blockers doubtful especificacao) ≡ true)
    × (any (keeps_open doubtful especificacao) (values (latest doubtful)) ≡ false))
evaluate-complete_iff_example = evaluate-complete_iff in_order doubtful especificacao

-- The blockers of the first stage in their order.
abbrev produto_blockers : List String
produto_blockers = "order.customer" ∷ "items" ∷ []

evaluate_produto : (evaluate in_order doubtful produto).blockers ≡ produto_blockers
unfolding evaluate unsorted_blockers gate_blockers keeps_open resolve_field is_applicable belongs_to
    split_dots lookup sets_aside latest_from put values not_after
evaluate_produto = refl
