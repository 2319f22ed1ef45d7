-- ===== src/Access/Tests.antt =====
-- Two administrators; the second one is revoked by the first, who cannot revoke her own.
use crm_silmer.Base.{lookup, put, trim, String, ◌≡◌, refl, Bool, true, false, List, [], ◌∷◌}
use crm_silmer.Access.{User, AuditEvent, State, Command, is_non_empty, validate, revoke_capability}
use crm_silmer.Access.Admins.{HasAdmin, Operation, revokes, step, run, run-HasAdmin}

abbrev boss : User
boss = record {
  is_assistant = false;
  function_name = "Vendedor";
  capabilities = "COMMERCIAL_ADMIN" ∷ [];
}

abbrev office : State
office = record { users = ("ana", boss) ∷ ("bia", boss) ∷ []; revoked_sessions = []; audits = [] }

abbrev about : String → Command
about target_id = record {
  actor_id = "ana";
  capability = "COMMERCIAL_ADMIN";
  correlation_id = "corr-1";
  reason = "change of roles";
  target_id = target_id;
}

abbrev stored : AuditEvent → Bool
stored e = true

office-HasAdmin : HasAdmin office
unfolding lookup
office-HasAdmin = record { id = "ana"; user = boss; found = refl; is_admin_user = refl }

abbrev changes : List Operation
changes = revokes (about "bia") stored 7 ∷ revokes (about "ana") stored 8 ∷ []

run-HasAdmin_example : HasAdmin (run office changes)
run-HasAdmin_example = run-HasAdmin office changes office-HasAdmin

run-changes :
    (run office changes).users ≡ ("ana", boss) ∷ ("bia", record boss { capabilities = [] }) ∷ []
unfolding run step revoke_capability validate is_non_empty trim lookup put
run-changes = refl
