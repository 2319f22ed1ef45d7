-- ===== src/Work.antt =====
-- modules/work-management/src/in-memory-work-management-repository.js: the state of the work
-- repository (deals, conversations, users, handoffs, tasks and their histories), the private
-- lookups with their version checks, and the assignment of a deal. The commands are in `Tasks`,
-- `Handoffs` and `Answers`. Instants are milliseconds; an envelope is the opaque text that the
-- cipher made; what `idFactory` returns in a call is an argument of the command.
pub mod Tasks
pub mod Handoffs
pub mod Answers
pub mod Commands
pub mod Counted
pub mod Fence
pub mod Frames
pub mod Inversion
pub mod Answered
pub mod Exclusive
mod Tests
use crm_silmer.Base.{
  ℕ, ◌+◌, String, Bool, true, false, not, ◌&&◌, ◌||◌, Option, none, some, List, [], ◌∷◌, ◌++◌, ◌==◌,
  nat_eq, text_eq, if◌then◌else◌, is_some, Result, ok, err, ◌>>=◌, ◌>>◌, guard, or_throw, Table,
  lookup, put,
}

pub data WorkError : Type 0 where
  validation_error conflict_error : String → WorkError
  forbidden_error : WorkError

pub data ActorKind : Type 0 where
  human automation_executor : ActorKind

pub record Actor : Type 0 where
  pub id : String
  pub kind : ActorKind

pub record User : Type 0 where
  pub id : String
  pub function_name : String
  pub disabled_at : Option ℕ

pub data DealStatus : Type 0 where
  active won lost : DealStatus

pub record Deal : Type 0 where
  pub id : String
  pub contact_id : String
  pub assigned_user_id : Option String
  pub status : DealStatus
  pub version : ℕ
  pub updated_at : ℕ

pub data AutomationState : Type 0 where
  assistant human_led : AutomationState

pub record Conversation : Type 0 where
  pub id : String
  pub contact_id : String
  pub assigned_user_id : Option String
  pub automation_epoch : ℕ
  pub automation_state : AutomationState
  pub state : String
  pub terminal_at : Option ℕ
  pub version : ℕ
  pub updated_at : ℕ

pub data TaskStatus : Type 0 where
  pending in_progress completed cancelled : TaskStatus

pub data TaskType : Type 0 where
  follow_up human_handoff : TaskType

pub record Task : Type 0 where
  pub id : String
  pub deal_id : String
  pub handoff_id : Option String
  pub assigned_user_id : String
  pub type : TaskType
  pub status : TaskStatus
  pub text_envelope : String
  pub due_at : ℕ
  pub created_at : ℕ
  pub updated_at : ℕ
  pub version : ℕ

pub data HandoffStatus : Type 0 where
  pending accepted resolved : HandoffStatus

-- The context of the automation that asked for a handoff.
pub record AutomationContext : Type 0 where
  pub execution_id : String
  pub workflow_key : String
  pub workflow_version : String

pub record Handoff : Type 0 where
  pub id : String
  pub deal_id : String
  pub conversation_id : String
  pub assigned_user_id : Option String
  pub automation_context : Option AutomationContext
  pub reason_code : String
  pub target_role : String
  pub sla_minutes : ℕ
  pub sla_policy_version : String
  pub status : HandoffStatus
  pub summary_envelope : String
  pub due_at : ℕ
  pub created_at : ℕ
  pub updated_at : ℕ
  pub version : ℕ

-- What `history(entity, fromStatus, toStatus, input)` records.
pub record History (S : Type 0) : Type 0 where
  pub actor_id : String
  pub correlation_id : String
  pub entity_id : String
  pub from_status : Option S
  pub occurred_at : ℕ
  pub resulting_version : ℕ
  pub to_status : S

pub record Assignment : Type 0 where
  pub actor_id : String
  pub assigned_user_id : String
  pub correlation_id : String
  pub deal_id : String
  pub previous_user_id : Option String
  pub reason_code : String
  pub resulting_version : ℕ
  pub occurred_at : ℕ

pub record Store : Type 0 where
  pub assignment_history : List Assignment
  pub conversations : Table Conversation
  pub deals : Table Deal
  pub handoffs : Table Handoff
  pub handoff_history : List (History HandoffStatus)
  pub tasks : Table Task
  pub task_history : List (History TaskStatus)
  pub users : Table User

-- The fields that every command's input carries.
pub record Stamp : Type 0 where
  pub actor : Actor
  pub correlation_id : String
  pub occurred_at : ℕ
  pub reason_code : String

unfoldable pub history : {S : Type 0} → String → ℕ → Option S → S → Stamp → History S
history entity_id version from_status to_status input = record {
  actor_id = input.actor.id;
  correlation_id = input.correlation_id;
  entity_id = entity_id;
  from_status = from_status;
  occurred_at = input.occurred_at;
  resulting_version = version;
  to_status = to_status;
}

-- `value.version !== version` counts as missing.
abbrev pub at_version {ℓ} : {V : Type ℓ} → (V → ℕ) → ℕ → Option V → Option V
at_version version_of expected none = none
at_version version_of expected (some v) = if version_of v == expected then some v else none

unfoldable pub get_deal : Store → String → ℕ → Result WorkError Deal
get_deal s id version =
    or_throw (at_version (λ (d : Deal). d.version) version (lookup id s.deals))
      (conflict_error "Deal version conflicts")

unfoldable pub get_conversation : Store → String → ℕ → Result WorkError Conversation
get_conversation s id version =
    or_throw (at_version (λ (c : Conversation). c.version) version (lookup id s.conversations))
      (conflict_error "Conversation version conflicts")

unfoldable pub get_task : Store → String → ℕ → Result WorkError Task
get_task s id version =
    or_throw (at_version (λ (t : Task). t.version) version (lookup id s.tasks))
      (conflict_error "Task version conflicts")

unfoldable pub get_handoff : Store → String → ℕ → Result WorkError Handoff
get_handoff s id version =
    or_throw (at_version (λ (h : Handoff). h.version) version (lookup id s.handoffs))
      (conflict_error "Handoff version conflicts")

abbrev seller : Option User → Option User
seller none = none
seller (some u) =
    if is_some u.disabled_at || not (u.function_name == "Vendedor") then none else some u

unfoldable pub get_user : Store → String → Result WorkError User
get_user s id = or_throw (seller (lookup id s.users)) (validation_error "Assignee is unavailable")

abbrev check_actor : ActorKind → Result WorkError User → Result WorkError (Unit {0})
check_actor human found = found >>= λ _. ok tt
check_actor automation_executor found = ok tt

-- A human actor has to be an available seller.
unfoldable pub human_actor : Store → Actor → Result WorkError (Unit {0})
human_actor s actor = check_actor actor.kind (get_user s actor.id)

abbrev pub assigned : Deal → User → Stamp → Deal
assigned deal user input = record deal {
  assigned_user_id = some user.id;
  version = deal.version + 1;
  updated_at = input.occurred_at;
}

-- `#assign`: the deal that stands at `id` in the map goes to `user`.
unfoldable pub assign : Store → String → Deal → User → Stamp → Store
assign s id deal user input = record s {
  deals = put id (assigned deal user input) s.deals;
  assignment_history = s.assignment_history ++ entry ∷ [];
}
  where
    entry : Assignment
    entry = record {
      actor_id = input.actor.id;
      assigned_user_id = user.id;
      correlation_id = input.correlation_id;
      deal_id = deal.id;
      previous_user_id = deal.assigned_user_id;
      reason_code = input.reason_code;
      resulting_version = deal.version + 1;
      occurred_at = input.occurred_at;
    }

unfoldable pub assign_deal :
    Store
    → Stamp
    → (deal_id : String) (expected_deal_version : ℕ) (assigned_user_id : String)
    → Result WorkError Store
assign_deal s input deal_id expected_deal_version assigned_user_id = do
  human_actor s input.actor
  deal ← get_deal s deal_id expected_deal_version
  user ← get_user s assigned_user_id
  ok (assign s deal_id deal user input)
