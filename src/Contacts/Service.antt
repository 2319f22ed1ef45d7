-- ===== src/Contacts/Service.antt =====
-- modules/contacts/src/application/contact-identity-service.js over the repository. SHA-256 is a
-- parameter, and so are the ids of a call and what the clock gives; `none` is an invalid date.
use crm_silmer.Base.{
  ok, err, or_throw, ◌>>=◌, values, quote, json_array, decimal, ℕ, String, Bool, Option, List, [],
  ◌∷◌,
}
use crm_silmer.Contacts.{clock_error, Store, Outcome, resolve_inbound_identity}
use crm_silmer.Contacts.Merging.{
  Stamp, MergeCommand, UnmergeCommand, AuditEvent, merge_identity, unmerge_identity,
}
use crm_silmer.Contacts.Inputs.{
  Value, Tables, Checked, required_string, IdentityInput, normalize_inbound_identity, HumanInput,
  Normalized, normalize_human_command,
}

pub record MergeInput : Type 0 where
  pub common : HumanInput
  pub identity_id : Value
  pub target_contact_id : Value

pub record UnmergeInput : Type 0 where
  pub common : HumanInput
  pub link_id : Value

-- `commandFingerprint`
abbrev pub command_fingerprint : (String → String) → List String → String
command_fingerprint sha256 values = sha256 (json_array values)

-- An operation that throws before it reaches the repository.
abbrev pub with_checked : {A : Type 0} → Checked A → (A → Store → Outcome) → Store → Outcome
with_checked (err e) work s = (err e, s)
with_checked (ok a) work s = work a s

unfoldable pub resolve_inbound :
    Tables → IdentityInput → (contact_id identity_id : String) → Option ℕ → Store → Outcome
unfolding normalize_inbound_identity
resolve_inbound tables input contact_id identity_id now =
    with_checked
      (do
        identity ← normalize_inbound_identity tables input
        instant ← or_throw now clock_error
        ok (identity, instant))
      λ (identity, instant). resolve_inbound_identity identity contact_id identity_id instant

abbrev pub stamp_of : Normalized → String → ℕ → Stamp
stamp_of n fingerprint now = record {
  actor_id = n.actor_id;
  correlation_id = n.correlation_id;
  expected_version = n.expected_version;
  idempotency_key = n.idempotency_key;
  reason = n.reason;
  fingerprint = fingerprint;
  now = now;
}

unfoldable pub merge_command :
    (String → String) → MergeInput → (link_id : String) → Option ℕ → Checked MergeCommand
unfolding normalize_human_command required_string quote decimal
merge_command sha256 input link_id now = do
  command ← normalize_human_command input.common
  identity_id ← required_string input.identity_id 128
  target_contact_id ← required_string input.target_contact_id 128
  instant ← or_throw now clock_error
  ok (record {
    stamp =
        stamp_of command
          (command_fingerprint sha256 (
            quote "contact.identity.merge"
            ∷ quote command.actor_id
            ∷ quote identity_id
            ∷ quote target_contact_id
            ∷ decimal command.expected_version
            ∷ quote command.reason
            ∷ quote command.correlation_id
            ∷ []))
          instant;
    identity_id = identity_id;
    target_contact_id = target_contact_id;
    link_id = link_id;
  })

unfoldable pub merge :
    (String → String)
    → (AuditEvent → Bool)
    → MergeInput
    → (link_id : String) → Option ℕ
    → Store
    → Outcome
unfolding merge_command
merge sha256 append_audit input link_id now =
    with_checked (merge_command sha256 input link_id now) λ c. merge_identity c append_audit

unfoldable pub unmerge_command :
    (String → String) → UnmergeInput → Option ℕ → Checked UnmergeCommand
unfolding normalize_human_command required_string quote decimal
unmerge_command sha256 input now = do
  command ← normalize_human_command input.common
  link_id ← required_string input.link_id 128
  instant ← or_throw now clock_error
  ok (record {
    stamp =
        stamp_of command
          (command_fingerprint sha256 (
            quote "contact.identity.unmerge"
            ∷ quote command.actor_id
            ∷ quote link_id
            ∷ decimal command.expected_version
            ∷ quote command.reason
            ∷ quote command.correlation_id
            ∷ []))
          instant;
    link_id = link_id;
  })

unfoldable pub unmerge :
    (String → String) → (AuditEvent → Bool) → UnmergeInput → Option ℕ → Store → Outcome
unfolding unmerge_command
unmerge sha256 append_audit input now =
    with_checked (unmerge_command sha256 input now) λ c. unmerge_identity c append_audit
