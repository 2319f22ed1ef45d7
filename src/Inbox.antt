-- ===== src/Inbox.antt =====
-- modules/inbox-channels/src: the conversation states of `domain/inbox.js` and
-- `adapters/in-memory-inbox-repository.js`: its maps and `#exclusive`. Inbound messages and
-- suggestions are in `Inbounds`, the mutations that people make in `Mutations`. Instants are
-- milliseconds. What `idFactory`, `clock`, `JSON.stringify` and the port of pending orders answer
-- in a call are arguments of the command; `appendAudit` may refuse.
pub mod Inbounds
pub mod Mutations
pub mod Effects
pub mod Active
pub mod Ended
pub mod Replays
mod Tests
use Prim.Native.String.{◌++◌}
use crm_silmer.Base.{Result, restored, Table, ℕ, String, Bool, true, false, Option}

pub data InboxState : Type 0 where
  nova em_analise em_atendimento requer_atencao convertida_em_lead sem_lead encerrada : InboxState

-- `isTerminalInboxState`
unfoldable pub is_terminal : InboxState → Bool
is_terminal sem_lead = true
is_terminal encerrada = true
is_terminal _ = false

pub data AutomationState : Type 0 where
  assistant human : AutomationState

pub data InboxError : Type 0 where
  conflict_error forbidden_error : String → InboxError
  audit_failed : InboxError

pub record Conversation : Type 0 where
  pub id : String
  pub scope : String
  pub provider : String
  pub provider_account_id : String
  pub external_conversation_id : String
  pub contact_id : String
  pub identity_id : String
  pub cycle_number : ℕ
  pub previous_conversation_id : Option String
  pub automation_epoch : ℕ
  pub automation_state : AutomationState
  pub assigned_user_id : Option String
  pub state : InboxState
  pub closure_outcome : Option String
  pub closed_by : Option String
  pub archived_at : Option ℕ
  pub terminal_at : Option ℕ
  pub created_at : ℕ
  pub updated_at : ℕ
  pub version : ℕ

pub data Direction : Type 0 where
  inbound outbound : Direction

pub record Message : Type 0 where
  pub id : String
  pub author_id : Option String
  pub content : String
  pub conversation_id : String
  pub conversation_version : Option ℕ
  pub created_at : ℕ
  pub direction : Direction
  pub external_message_id : Option String
  pub provider : String
  pub provider_account_id : String
  pub type : String

-- What a command answers: the conversation (the source leaves out `scope`), a queued message, or
-- both for an inbound message.
pub data Reply : Type 0 where
  conversation : Conversation → Reply
  message : Message → Reply
  received : Conversation → Message → Reply

pub record Handled : Type 0 where
  pub fingerprint : String
  pub result : Reply

pub record Suggestion : Type 0 where
  pub id : String
  pub automation_epoch : ℕ
  pub conversation_id : String
  pub created_at : ℕ
  pub created_by : String
  pub proposed_stage : String
  pub question : String
  pub source_message_id : String

pub record Inbox : Type 0 where
  pub commands : Table Handled
  pub conversations : Table Conversation
  pub messages : Table Reply
  pub suggestions : Table Suggestion

-- A key of a map: its parts with a NUL between them.
abbrev pub joined : String → String → String
joined a b = a ++ ("\0" ++ b)

-- What an operation that runs under `#exclusive` returns or throws, and the maps that it leaves.
abbrev pub Exec : Type 0 → Type 0
Exec A = Inbox → Result InboxError A × Inbox

-- `#exclusive`: an error puts the snapshot back.
unfoldable pub exclusive : {A : Type 0} → Exec A → Exec A
exclusive work s = restored s (work s)
