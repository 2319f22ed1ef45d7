-- ===== src/Contacts/Merging.antt =====
-- `mergeIdentity` and `unmergeIdentity`. A contact that moves is the map's object: it is changed
-- where it stands.
use crm_silmer.Base.{
  text_eq, nat_eq, ◌==◌, if◌then◌else◌, Result, ok, err, guard, or_throw, ◌>>=◌, ◌>>◌, any, lookup,
  put, values, ℕ, ◌+◌, String, Bool, true, false, not, ◌&&◌, Option, none, some,
}
use crm_silmer.Contacts.{
  ContactError, conflict_error, not_found, audit_failed, Contact, Identity, LinkStatus, active,
  reverted, Link, Answer, Handled, Store, Outcome, exclusive,
}

pub record Stamp : Type 0 where
  pub actor_id : String
  pub correlation_id : String
  pub expected_version : ℕ
  pub idempotency_key : String
  pub reason : String
  pub fingerprint : String
  pub now : ℕ

pub record MergeCommand : Type 0 where
  pub stamp : Stamp
  pub open stamp use *
  pub identity_id : String
  pub target_contact_id : String
  pub link_id : String

pub record UnmergeCommand : Type 0 where
  pub stamp : Stamp
  pub open stamp use *
  pub link_id : String

pub record AuditEvent : Type 0 where
  pub action : String
  pub actor : String
  pub correlation_id : String
  pub reason : String
  pub target_id : String
  pub version : ℕ

abbrev pub audit_event : String → Stamp → Identity → AuditEvent
audit_event action stamp identity = record {
  action = action;
  actor = stamp.actor_id;
  correlation_id = stamp.correlation_id;
  reason = stamp.reason;
  target_id = identity.id;
  version = identity.version;
}

-- `commandReplay`
abbrev pub command_replay : Store → Handled → String → Outcome
command_replay s h fingerprint =
    if h.fingerprint == fingerprint then (ok h.result, s) else (err conflict_error, s)

abbrev pub is_active : LinkStatus → Bool
is_active active = true
is_active reverted = false

-- `#activeLink`
abbrev pub links_actively : String → Link → Bool
links_actively identity_id l = l.identity_id == identity_id && is_active l.status

pub record Merging : Type 0 where
  pub identity : Identity
  pub source : Contact
  pub target : Contact

unfoldable pub check_merge : Store → MergeCommand → Result ContactError Merging
check_merge s c = do
  identity ← or_throw (lookup c.identity_id s.identities) not_found
  target ← or_throw (lookup c.target_contact_id s.contacts) not_found
  guard
      (identity.version == c.expected_version
        && not (identity.contact_id == target.id)
        && not (any (links_actively identity.id) (values s.links)))
      conflict_error
  source ← or_throw (lookup identity.contact_id s.contacts) not_found
  ok (record { identity = identity; source = source; target = target })

abbrev pub touched : Contact → ℕ → Contact
touched contact now = record contact { version = contact.version + 1; updated_at = now }

abbrev pub moved_to : String → Identity → ℕ → Identity
moved_to contact_id identity now = record identity {
  contact_id = contact_id;
  updated_at = now;
  version = identity.version + 1;
}

abbrev pub new_link : MergeCommand → Merging → Link
new_link c m = record {
  id = c.link_id;
  identity_id = m.identity.id;
  merged_at = c.now;
  merged_by = c.actor_id;
  source_contact_id = m.source.id;
  status = active;
  target_contact_id = m.target.id;
  reverted_at = none;
  reverted_by = none;
}

abbrev pub merged : Store → MergeCommand → Merging → Store
merged s c m = record s {
  contacts =
      put c.target_contact_id (touched m.target c.now)
        (put m.identity.contact_id (touched m.source c.now) s.contacts);
  identities = put c.identity_id (moved_to m.target.id m.identity c.now) s.identities;
  links = put c.link_id (new_link c m) s.links;
}

-- What the audit stores, or else refuses, before the command is kept under its key.
abbrev pub commit_merge : Store → MergeCommand → (AuditEvent → Bool) → Merging → Outcome
commit_merge s c append_audit m =
    let identity = moved_to m.target.id m.identity c.now in
    let result : Answer = record {
      contact = touched m.target c.now;
      identity = identity;
      link = some (new_link c m);
    } in
    let t = merged s c m in
    if append_audit (audit_event "contact.identity.merged" c.stamp identity)
    then (
      ok result,
      record t {
        merge_commands =
            put c.idempotency_key (record { fingerprint = c.fingerprint; result = result })
              t.merge_commands;
      },
    )
    else (err audit_failed, t)

abbrev pub attempt_merge :
    Store → MergeCommand → (AuditEvent → Bool) → Result ContactError Merging → Outcome
attempt_merge s c append_audit (err e) = (err e, s)
attempt_merge s c append_audit (ok m) = commit_merge s c append_audit m

abbrev pub merge_or_replay : Store → MergeCommand → (AuditEvent → Bool) → Option Handled → Outcome
merge_or_replay s c append_audit (some h) = command_replay s h c.fingerprint
merge_or_replay s c append_audit none = attempt_merge s c append_audit (check_merge s c)

unfoldable pub merge_identity : MergeCommand → (AuditEvent → Bool) → Store → Outcome
unfolding exclusive
merge_identity c append_audit =
    exclusive λ s. merge_or_replay s c append_audit (lookup c.idempotency_key s.merge_commands)

pub record Unmerging : Type 0 where
  pub link : Link
  pub identity : Identity
  pub source : Contact
  pub target : Contact

unfoldable pub check_unmerge : Store → UnmergeCommand → Result ContactError Unmerging
check_unmerge s c = do
  link ← or_throw (lookup c.link_id s.links) not_found
  identity ← or_throw (lookup link.identity_id s.identities) not_found
  source ← or_throw (lookup link.source_contact_id s.contacts) not_found
  target ← or_throw (lookup link.target_contact_id s.contacts) not_found
  guard
      (is_active link.status
        && identity.contact_id == target.id
        && identity.version == c.expected_version)
      conflict_error
  ok (record { link = link; identity = identity; source = source; target = target })

abbrev pub reverted_link : Link → UnmergeCommand → Link
reverted_link link c = record link {
  reverted_at = some c.now;
  reverted_by = some c.actor_id;
  status = reverted;
}

abbrev pub unmerged : Store → UnmergeCommand → Unmerging → Store
unmerged s c u = record s {
  contacts =
      put u.link.target_contact_id (touched u.target c.now)
        (put u.link.source_contact_id (touched u.source c.now) s.contacts);
  identities = put u.link.identity_id (moved_to u.source.id u.identity c.now) s.identities;
  links = put c.link_id (reverted_link u.link c) s.links;
}

abbrev pub commit_unmerge : Store → UnmergeCommand → (AuditEvent → Bool) → Unmerging → Outcome
commit_unmerge s c append_audit u =
    let identity = moved_to u.source.id u.identity c.now in
    let result : Answer = record {
      contact = touched u.source c.now;
      identity = identity;
      link = some (reverted_link u.link c);
    } in
    let t = unmerged s c u in
    if append_audit (audit_event "contact.identity.unmerged" c.stamp identity)
    then (
      ok result,
      record t {
        unmerge_commands =
            put c.idempotency_key (record { fingerprint = c.fingerprint; result = result })
              t.unmerge_commands;
      },
    )
    else (err audit_failed, t)

abbrev pub attempt_unmerge :
    Store → UnmergeCommand → (AuditEvent → Bool) → Result ContactError Unmerging → Outcome
attempt_unmerge s c append_audit (err e) = (err e, s)
attempt_unmerge s c append_audit (ok u) = commit_unmerge s c append_audit u

abbrev pub unmerge_or_replay :
    Store → UnmergeCommand → (AuditEvent → Bool) → Option Handled → Outcome
unmerge_or_replay s c append_audit (some h) = command_replay s h c.fingerprint
unmerge_or_replay s c append_audit none = attempt_unmerge s c append_audit (check_unmerge s c)

unfoldable pub unmerge_identity : UnmergeCommand → (AuditEvent → Bool) → Store → Outcome
unfolding exclusive
unmerge_identity c append_audit =
    exclusive λ s. unmerge_or_replay s c append_audit (lookup c.idempotency_key s.unmerge_commands)
