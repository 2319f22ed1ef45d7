-- ===== src/Configuration/Service.antt =====
-- modules/configuration/src/application/configuration-service.js over the rows that
-- modules/configuration/src/adapters/postgres-configuration-repository.js keeps, the newest first.
-- The database's transaction, which leaves nothing when it throws, is assumed; whether the audit
-- stores its event, the new id and the clock are arguments of a call.
use crm_silmer.Base.{
  text_eq, nat_eq, ◌==◌, ok, err, guard, ◌>>=◌, ◌>>◌, any, trim, ℕ, ◌+◌, String, Bool, ◌&&◌, Option,
  none, some, List, [], ◌∷◌,
}
use crm_silmer.Base.Documents.{Json}
use crm_silmer.Configuration.{
  validation_error, forbidden_error, conflict_error, port_error, Checked, is_non_empty,
}
use crm_silmer.Configuration.Versions.{
  Version, is_safe, create_version, ChannelConfiguration, channel_configuration,
}

pub record Actor : Type 0 where
  pub id : String
  pub capabilities : List String

pub record Command : Type 0 where
  pub actor : Option Actor
  pub correlation_id : String
  pub expected_version : ℕ
  pub reason : String
  pub values : Json

pub record AuditEvent : Type 0 where
  pub action : String
  pub actor : String
  pub correlation_id : String
  pub reason : String
  pub target_id : String
  pub version : ℕ

-- `assertPrivilegedActor`
unfoldable pub privileged : Option Actor → Checked Actor
privileged none = err forbidden_error
privileged (some a) = do
  guard (any (λ c. c == "COMMERCIAL_ADMIN") a.capabilities) forbidden_error
  ok a

-- `assertCommandMetadata`
unfoldable pub has_metadata : Command → Bool
has_metadata c =
    is_safe c.expected_version && is_non_empty c.correlation_id && is_non_empty c.reason

-- `findCurrent`: the newest row, made a version anew.
unfoldable pub find_current : List Version → Checked (Option Version)
find_current [] = ok none
find_current (v ∷ vs) = create_version v >>= λ w. ok (some w)

abbrev pub version_of : Option Version → ℕ
version_of none = 0
version_of (some v) = v.version

unfoldable pub next_version : Command → Actor → (id : String) (now current : ℕ) → Version
next_version c actor id now current = record {
  created_at = now;
  created_by = actor.id;
  id = id;
  reason = c.reason;
  values = c.values;
  version = current + 1;
}

unfoldable pub created_event : Command → Actor → Version → AuditEvent
unfolding trim
created_event c actor v = record {
  action = "configuration.version.created";
  actor = actor.id;
  correlation_id = c.correlation_id;
  reason = trim c.reason;
  target_id = v.id;
  version = v.version;
}

-- `createVersion`: the version and the rows that its transaction commits.
unfoldable pub create :
    Command
    → (id : String) (now : ℕ) → (AuditEvent → Bool)
    → List Version
    → Checked (Version × List Version)
create c id now append_audit vs = do
  actor ← privileged c.actor
  guard (has_metadata c) validation_error
  current ← find_current vs
  guard (c.expected_version == version_of current) conflict_error
  version ← create_version (next_version c actor id now (version_of current))
  guard (append_audit (created_event c actor version)) port_error
  ok (version, version ∷ vs)

-- `readChannelConfiguration`
abbrev pub channels_of : Option Version → Checked (Option ChannelConfiguration)
channels_of none = ok none
channels_of (some v) = channel_configuration v >>= λ c. ok (some c)

unfoldable pub read_channel_configuration : List Version → Checked (Option ChannelConfiguration)
read_channel_configuration vs = find_current vs >>= channels_of
