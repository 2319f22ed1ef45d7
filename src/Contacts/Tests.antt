-- ===== src/Contacts/Tests.antt =====
-- Two people write, the first one's identity is merged into the second contact, and back.
use crm_silmer.Contacts.Inputs.{text}
use crm_silmer.Base.{
  ok, lookup, put, values, ℕ, String, ◌≡◌, refl, Bool, true, none, some, List, [], ◌∷◌, ◌++◌,
}
use crm_silmer.Contacts.{
  Answer, Store, Inbound, identity_scope, new_contact, new_identity, resolve_or_create,
  resolve_inbound_identity,
}
use crm_silmer.Contacts.Merging.{
  Stamp, MergeCommand, UnmergeCommand, AuditEvent, check_merge, merge_identity, unmerge_identity,
}
use crm_silmer.Contacts.Anchored.{IsAnchored}
use crm_silmer.Contacts.Runs.{Operation, resolves, merges, unmerges, step, run, run-IsAnchored}
use crm_silmer.Contacts.Undo.{unmerge_identity-merge_identity}
use crm_silmer.Contacts.Service.{MergeInput}

abbrev person : String → String → Inbound
person id kind = record {
  channel = "whatsapp";
  correlation_id = "corr-1";
  display_handle = none;
  external_identity_id = id;
  identity_kind = kind;
  occurred_at = 1;
  phone_status = "unknown";
  provider = "meta";
  provider_account_id = "account";
}

abbrev nobody : Store
nobody = record {
  contacts = [];
  identities = [];
  identities_by_scope = [];
  links = [];
  merge_commands = [];
  unmerge_commands = [];
}

abbrev stamp : String → ℕ → Stamp
stamp key version = record {
  actor_id = "ana";
  correlation_id = "corr-2";
  expected_version = version;
  idempotency_key = key;
  reason = "same person";
  fingerprint = key;
  now = 9;
}

abbrev merge_ana : MergeCommand
merge_ana = record {
  stamp = stamp "k1" 1;
  identity_id = "i1";
  target_contact_id = "c2";
  link_id = "l1";
}

abbrev undo_ana : UnmergeCommand
undo_ana = record { stamp = stamp "k2" 2; link_id = "l1" }

abbrev stored : AuditEvent → Bool
stored e = true

abbrev arrivals : List Operation
arrivals =
    resolves (person "p1" "wa_id") "c1" "i1" 3 ∷ resolves (person "p2" "wa_id") "c2" "i2" 4 ∷ []

nobody-IsAnchored : IsAnchored nobody
unfolding lookup
nobody-IsAnchored = record {
  contact_ids = λ k c h. cc;
  identity_ids = λ k i h. cc;
  scoped = λ k i h. cc;
  anchored = λ k i h. cc;
  sources = λ k l h. cc;
  linked = λ k l h. cc;
  held = λ k l i h going found. cc;
  single = λ j k l l' h h' going going' same. cc;
}

run-IsAnchored_example :
    IsAnchored (run nobody (arrivals ++ (merges merge_ana stored ∷ unmerges undo_ana stored ∷ [])))
unfolding run step resolve_inbound_identity merge_identity unmerge_identity lookup resolve_or_create
    put identity_scope
run-IsAnchored_example =
    run-IsAnchored nobody (arrivals ++ (merges merge_ana stored ∷ unmerges undo_ana stored ∷ []))
      ((refl, refl), ((refl, refl), (refl, (tt, tt)))) nobody-IsAnchored

abbrev people : Store
people = record nobody {
  contacts = ("c1", new_contact "c1" 3) ∷ ("c2", new_contact "c2" 4) ∷ [];
  identities =
      ("i1", new_identity (person "p1" "wa_id") "c1" "i1" 3)
      ∷ ("i2", new_identity (person "p2" "wa_id") "c2" "i2" 4)
      ∷ [];
  identities_by_scope =
      (identity_scope (person "p1" "wa_id"), "i1")
      ∷ (identity_scope (person "p2" "wa_id"), "i2")
      ∷ [];
}

people-IsAnchored : IsAnchored people
unfolding run step resolve_inbound_identity lookup resolve_or_create put identity_scope
people-IsAnchored =
    run-IsAnchored nobody arrivals ((refl, refl), ((refl, refl), tt)) nobody-IsAnchored

unmerge_identity-merge_identity_example :
    let t = (merge_identity merge_ana stored people).1 in
    (r : Answer) × ((unmerge_identity undo_ana stored t).0 ≡ ok r)
    × (lookup "i1" (unmerge_identity undo_ana stored t).1.identities
        ≡ some (record (new_identity (person "p1" "wa_id") "c1" "i1" 3) {
          updated_at = 9;
          version = 3;
        }))
unfolding merge_identity lookup put check_merge values
unmerge_identity-merge_identity_example =
    unmerge_identity-merge_identity people merge_ana undo_ana stored
      (new_identity (person "p1" "wa_id") "c1" "i1" 3) _ people-IsAnchored refl refl refl refl refl
      refl (λ e. refl)

abbrev merge_input : MergeInput
merge_input = record {
  common = record {
    actor = some (record { kind = text "human"; function_name = "Vendedor"; id = text "ana" });
    expected_version = some 1;
    correlation_id = text "corr-2";
    idempotency_key = text "k1";
    reason = text "same person";
  };
  identity_id = text "i1";
  target_contact_id = text "c2";
}
