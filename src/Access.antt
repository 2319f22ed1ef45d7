-- ===== src/Access.antt =====
-- modules/identity-access/src/authorization.js: the policy of the actions, and the capabilities
-- that an administrator grants and revokes over the rows of adapter postgres-access.js. Users that
-- are disabled have no row here. A query is done when the next one throws; whether the audit
-- stores its event and the clock are arguments of a call.
pub mod Admins
mod Tests
use crm_silmer.Base.{
  text_eq, nat_eq, ◌==◌, if◌then◌else◌, Result, ok, err, guard, or_throw, ◌>>=◌, ◌>>◌, any, keep,
  Table, lookup, put, trim, ℕ, String, Bool, not, ◌&&◌, ◌||◌, List, [], ◌∷◌, ◌++◌,
}

pub data AccessError : Type 0 where
  forbidden invalid_request not_found type_error : AccessError

pub record User : Type 0 where
  pub is_assistant : Bool
  pub function_name : String
  pub capabilities : List String

-- `OPERATIONAL_ACTIONS`
abbrev pub operational_actions : List String
operational_actions =
    "contact.identity.merge" ∷ "contact.identity.unmerge" ∷ "contact.create" ∷ "contact.read"
    ∷ "contact.rename" ∷ "conversation.convert" ∷ "conversation.archive" ∷ "conversation.read"
    ∷ "conversation.subject.manage" ∷ "conversation.message.send" ∷ "conversation.reactivate-agent"
    ∷ "conversation.takeover" ∷ "conversation.transfer" ∷ "conversation.transition"
    ∷ "conversation.unarchive" ∷ "deal.assign" ∷ "deal.draft.edit" ∷ "deal.draft.read"
    ∷ "deal.events.read" ∷ "deal.fields.patch" ∷ "deal.lose" ∷ "deal.read" ∷ "deal.transition"
    ∷ "handoff.accept" ∷ "handoff.claim" ∷ "handoff.create" ∷ "handoff.read" ∷ "handoff.resolve"
    ∷ "handoff.transfer" ∷ "kanban.read" ∷ "order.confirm" ∷ "order.create" ∷ "order.edit"
    ∷ "order.milestones" ∷ "order.print" ∷ "order.read" ∷ "order.reopen" ∷ "task.cancel"
    ∷ "task.complete" ∷ "task.create" ∷ "task.start" ∷ "user.assignable.read" ∷ []

-- `actionCapabilities`; each action wants the one capability that there is.
abbrev pub admin_actions : List String
admin_actions =
    "conversation.archive" ∷ "order-form.approve" ∷ "order-form.cancel" ∷ "order-form.resend"
    ∷ "order-form.retry" ∷ "order-form.send" ∷ "quote.approve" ∷ "sale.approve" ∷ "user.manage" ∷ []

abbrev pub admin : String
admin = "COMMERCIAL_ADMIN"

abbrev pub has : String → List String → Bool
has c cs = any (λ d. d == c) cs

abbrev pub is_admin : User → Bool
is_admin u = has admin u.capabilities

-- `authorize`
unfoldable pub authorize : User → String → Result AccessError (Unit {0})
authorize actor action =
    if actor.is_assistant
    then err forbidden
    else guard
        (has action operational_actions && actor.function_name == "Vendedor"
          || has action admin_actions && is_admin actor)
        forbidden

pub record AuditEvent : Type 0 where
  pub action : String
  pub actor : String
  pub correlation_id : String
  pub reason : String
  pub target_id : String
  pub version : String

pub record State : Type 0 where
  pub users : Table User
  pub revoked_sessions : List (String × ℕ)
  pub audits : List AuditEvent

pub record Command : Type 0 where
  pub actor_id : String
  pub capability : String
  pub correlation_id : String
  pub reason : String
  pub target_id : String

-- `requireNonEmpty`
unfoldable pub is_non_empty : String → Bool
unfolding trim
is_non_empty s = not (trim s == "")

-- `validate`: the target's row.
unfoldable pub validate : Command → State → Result AccessError User
validate c s = do
  guard (c.capability == admin) invalid_request
  guard
      (is_non_empty c.actor_id
        && is_non_empty c.target_id
        && is_non_empty c.reason
        && is_non_empty c.correlation_id)
      type_error
  actor ← or_throw (lookup c.actor_id s.users) forbidden
  guard (is_admin actor) forbidden
  or_throw (lookup c.target_id s.users) not_found

abbrev pub Outcome : Type 0
Outcome = Result AccessError (Unit {0}) × State

abbrev pub audit_event : String → Command → AuditEvent
audit_event action c = record {
  action = action;
  actor = c.actor_id;
  correlation_id = c.correlation_id;
  reason = c.reason;
  target_id = c.target_id;
  version = c.capability;
}

-- `audit`, after the queries of a command.
abbrev pub audited : (AuditEvent → Bool) → AuditEvent → State → Outcome
audited append_audit e s =
    if append_audit e
    then (ok tt, record s { audits = s.audits ++ (e ∷ []) })
    else (err type_error, s)

abbrev pub with_capability : String → User → User
with_capability c u = record u {
  capabilities = if has c u.capabilities then u.capabilities else u.capabilities ++ (c ∷ []);
}

abbrev pub without_capability : String → User → User
without_capability c u = record u { capabilities = keep (λ d. not (d == c)) u.capabilities }

-- What a command does with the target that `validate` found, or with what it threw.
abbrev pub granted : Command → (AuditEvent → Bool) → State → Result AccessError User → Outcome
granted c append_audit s (err e) = (err e, s)
granted c append_audit s (ok target) =
    if c.actor_id == c.target_id
    then (err forbidden, s)
    else audited append_audit (audit_event "identity.capability.granted" c)
        (record s { users = put c.target_id (with_capability c.capability target) s.users })

unfoldable pub grant_capability : Command → (AuditEvent → Bool) → State → Outcome
grant_capability c append_audit s = granted c append_audit s (validate c s)

abbrev pub revoked : Command → (AuditEvent → Bool) → ℕ → State → Result AccessError User → Outcome
revoked c append_audit now s (err e) = (err e, s)
revoked c append_audit now s (ok target) =
    if c.capability == admin && c.actor_id == c.target_id
    then (err forbidden, s)
    else audited append_audit (audit_event "identity.capability.revoked" c) (record s {
      users = put c.target_id (without_capability c.capability target) s.users;
      revoked_sessions = s.revoked_sessions ++ ((c.target_id, now) ∷ []);
    })

unfoldable pub revoke_capability : Command → (AuditEvent → Bool) → (now : ℕ) → State → Outcome
revoke_capability c append_audit now s = revoked c append_audit now s (validate c s)
