-- ===== src/Deals/Executor.antt =====
-- The state of the deal commands, what their ports answer, and the executor and record store of
-- modules/integration-reliability/src/idempotency.js that every command runs under. A state is what
-- stands between two commands: a second command with the key of one that still runs waits for it.
-- `validateCommandRequest` repeats checks of the service and is not here.
use crm_silmer.Base.{
  ◌==◌, nat_eq, text_eq, if◌then◌else◌, Result, ok, err, Table, lookup, put, text_join, ℕ, String,
  Bool, Option, none, some, List, [], ◌∷◌, ◌++◌,
}
use crm_silmer.Deals.{
  Stage, Direction, DealError, idempotency_key_reused, port_error, Deal, Gate, DealRepo,
}
use crm_silmer.Deals.Validation.{Input}

pub data Body : Type 0 where
  moves : Direction → (automation_epoch : Option ℕ) (conversation_id : Option String) → Body
  loses : (reason_digest : String) → Body

-- What `fingerprintCommand` reads of a request on a deal.
pub record Fingerprinted : Type 0 where
  pub action : String
  pub target_id : String
  pub version : ℕ
  pub reason : String
  pub body : Body

pub record AuditEntry : Type 0 where
  pub actor : String
  pub action : String
  pub target_id : String
  pub version : ℕ
  pub reason : String
  pub correlation_id : String

pub data Payload : Type 0 where
  stage_changed : Direction → (from_stage to_stage : Stage) → Payload
  deal_lost : Stage → Payload

pub record Event : Type 0 where
  pub aggregate_id : String
  pub aggregate_version : ℕ
  pub correlation_id : String
  pub occurred_at : ℕ
  pub payload : Payload

pub record Answer : Type 0 where
  pub deal : Deal
  pub gate : Option Gate

-- A completed record of the idempotency store.
pub record Completed : Type 0 where
  pub fingerprint : String
  pub response : Answer

pub record State : Type 0 where
  pub repo : DealRepo
  pub events : List Event
  pub audits : List AuditEntry
  pub records : Table Completed

-- What the ports answer in a call. `blockers` is `none` when the assessment has no list.
pub record Ports : Type 0 where
  pub fence_holds : (automation_epoch : Option ℕ) (conversation_id : Option String) → String → Bool
  pub blockers : String → Stage → Option (List String)
  pub now : ℕ
  pub encrypt : String → String → String
  pub event_stored : Event → Bool
  pub audit_stored : AuditEntry → Bool

abbrev pub Outcome : Type 0
Outcome = Result DealError Answer × State

abbrev pub audited : AuditEntry → Ports → Outcome → Outcome
audited entry ports (err e, t) = (err e, t)
audited entry ports (ok a, t) =
    if ports.audit_stored entry
    then (ok a, record t { audits = t.audits ++ entry ∷ [] })
    else (err port_error, t)

abbrev pub settled : String → String → Outcome → Outcome
settled key fingerprint (err e, t) = (err e, t)
settled key fingerprint (ok a, t) = (
  ok a,
  record t { records = put key (record { fingerprint = fingerprint; response = a }) t.records },
)

abbrev pub answered_before : String → State → Completed → Outcome
answered_before fingerprint s r =
    if r.fingerprint == fingerprint then (ok r.response, s) else (err idempotency_key_reused, s)

abbrev pub storage_key : Input → String → String
storage_key command action =
    text_join "\0" (text_join ":" command.actor.id action) command.idempotency_key

-- The executor over the record store: one effect for a key.
unfoldable pub execute :
    (key fingerprint : String) → AuditEntry → Ports → (State → Outcome) → State → Outcome
execute key fingerprint entry ports effect s = elim (lookup key s.records) [
  | some r ↦ answered_before fingerprint s r
  | none ↦ settled key fingerprint (audited entry ports (effect s))
]
