-- ===== src/Inbox/Mutations.antt =====
-- `mutateConversation`: the six changes that a person can make. An unknown kind, `reactivate`
-- included, has no constructor.
use crm_silmer.Base.{
  ltb, text_eq, nat_eq, ◌==◌, if◌then◌else◌, is_some, is_filled, Result, ok, err, guard, or_throw,
  ◌>>=◌, ◌>>◌, any, Table, lookup, put, ℕ, ◌+◌, String, Bool, true, false, not, ◌||◌, Option, none,
  some, List,
}
use crm_silmer.Inbox.{
  InboxState, em_atendimento, encerrada, is_terminal, AutomationState, assistant, human, InboxError,
  conflict_error, forbidden_error, audit_failed, Conversation, outbound, Message, Reply,
  conversation, message, Handled, Inbox, joined, Exec, exclusive,
}

pub record Actor : Type 0 where
  pub id : String
  pub capabilities : List String

pub data Mutation : Type 0 where
  transition : InboxState → (outcome : Option String) (acknowledge_pending : Bool) → Mutation
  archive unarchive takeover : Mutation
  transfer : (target_user_id : String) → Mutation
  send : (content message_type : String) → Mutation

-- The key's part for a kind.
unfoldable pub kind_name : Mutation → String
kind_name (transition state outcome acknowledge) = "transition"
kind_name archive = "archive"
kind_name unarchive = "unarchive"
kind_name takeover = "takeover"
kind_name (transfer target) = "transfer"
kind_name (send content type) = "send"

-- `fingerprint` is `JSON.stringify(input)`.
pub record MutationInput : Type 0 where
  pub mutation : Mutation
  pub idempotency_key : String
  pub fingerprint : String
  pub conversation_id : String
  pub expected_version : ℕ
  pub actor : Actor
  pub correlation_id : String
  pub reason : String

pub record Audit : Type 0 where
  pub actor : String
  pub correlation_id : String
  pub action : String
  pub occurred_at : ℕ
  pub reason : String
  pub target_id : String
  pub version : ℕ

-- What the runtime answers in one call.
pub record Runtime : Type 0 where
  pub message_id : String
  pub now : ℕ
  pub pending_orders : ℕ
  pub append_audit : Audit → Bool

abbrev pub is_admin : Actor → Bool
is_admin a = any (λ (c : String). c == "COMMERCIAL_ADMIN") a.capabilities

abbrev pub is_archiving : Mutation → Bool
is_archiving archive = true
is_archiving unarchive = true
is_archiving _ = false

abbrev is_unarchive : Mutation → Bool
is_unarchive unarchive = true
is_unarchive _ = false

abbrev is_closing : InboxState → Bool
is_closing encerrada = true
is_closing _ = false

-- Assigned to somebody else.
abbrev pub is_foreign : Option String → String → Bool
is_foreign none actor_id = false
is_foreign (some user) actor_id = not (user == actor_id)

-- The further checks of closing a conversation.
unfoldable pub check_closing : Mutation → Conversation → Actor → ℕ → Result InboxError (Unit {0})
check_closing (transition encerrada outcome acknowledge) c actor pending = do
  guard (is_filled c.assigned_user_id || is_admin actor)
      (forbidden_error "Take over the conversation before closing it")
  guard (not (ltb 0 pending) || acknowledge)
      (conflict_error "Pending order requires acknowledgement")
check_closing _ c actor pending = ok tt

-- The checks, in the order of the source.
unfoldable pub check_mutation : Inbox → MutationInput → Runtime → Result InboxError Conversation
unfolding check_closing
check_mutation s input runtime = do
  c ←
      or_throw (lookup input.conversation_id s.conversations)
        (conflict_error "Conversation was not found")
  guard (c.version == input.expected_version) (conflict_error "Expected conversation version")
  guard (not (is_some c.terminal_at)) (conflict_error "Terminal conversations cannot be mutated")
  guard (not (is_unarchive input.mutation) || is_some c.archived_at)
      (conflict_error "Conversation is not archived")
  let admin = is_admin input.actor
  guard (not (is_archiving input.mutation) || is_some c.assigned_user_id || admin)
      (forbidden_error "Conversation must be taken over before it can be archived")
  guard (not (is_foreign c.assigned_user_id input.actor.id) || admin)
      (forbidden_error "Conversation is assigned to another operator")
  check_closing input.mutation c input.actor runtime.pending_orders
  ok c

abbrev is_assistant : AutomationState → Bool
is_assistant assistant = true
is_assistant human = false

abbrev closed : Conversation → Option String → String → Conversation
closed c outcome actor_id = record c {
  closure_outcome = outcome;
  closed_by = some actor_id;
  automation_epoch = c.automation_epoch + 1;
}

-- The conversation as a mutation leaves it.
unfoldable pub mutated : Mutation → Conversation → String → ℕ → Conversation
unfolding is_terminal
mutated (transition state outcome acknowledge) c actor_id now =
    let d = if is_closing state then closed c outcome actor_id else c in
    record d {
      state = state;
      terminal_at = if is_terminal state then some now else none;
      updated_at = now;
      version = c.version + 1;
    }
mutated archive c actor_id now = record c { archived_at = some now; version = c.version + 1 }
mutated unarchive c actor_id now = record c { archived_at = none; version = c.version + 1 }
mutated takeover c actor_id now = record c {
  automation_state = human;
  automation_epoch = c.automation_epoch + 1;
  state = em_atendimento;
  assigned_user_id = some actor_id;
  updated_at = now;
  version = c.version + 1;
}
mutated (transfer target) c actor_id now = record c {
  automation_state = human;
  state = em_atendimento;
  assigned_user_id = some target;
  updated_at = now;
  version = c.version + 1;
}
mutated (send content type) c actor_id now = record c {
  automation_epoch =
      if is_assistant c.automation_state then c.automation_epoch + 1 else c.automation_epoch;
  automation_state = human;
  assigned_user_id = some actor_id;
  state = em_atendimento;
  updated_at = now;
  version = c.version + 1;
}

-- The table `actions` of `createAudit`.
abbrev action_name : Mutation → String
action_name (transition state outcome acknowledge) = "conversation.state_transitioned"
action_name archive = "conversation.archived"
action_name unarchive = "conversation.unarchived"
action_name takeover = "conversation.takeover"
action_name (transfer target) = "conversation.transferred"
action_name (send content type) = "conversation.human_message_queued"

abbrev outgoing : String → String → MutationInput → Runtime → Conversation → Message
outgoing content type input runtime c = record {
  id = runtime.message_id;
  author_id = some input.actor.id;
  content = content;
  conversation_id = c.id;
  conversation_version = some c.version;
  created_at = runtime.now;
  direction = outbound;
  external_message_id = none;
  provider = c.provider;
  provider_account_id = c.provider_account_id;
  type = type;
}

-- The answer, and the messages with the queued one.
unfoldable pub answer :
    Mutation → MutationInput → Runtime → Conversation → Table Reply → Reply × Table Reply
answer (send content type) input runtime c messages =
    let reply = message (outgoing content type input runtime c) in
    (reply, put (joined "command" input.idempotency_key) reply messages)
answer _ input runtime c messages = (conversation c, messages)

abbrev pub audit_of : MutationInput → Conversation → ℕ → Audit
audit_of input c now = record {
  actor = input.actor.id;
  correlation_id = input.correlation_id;
  action = action_name input.mutation;
  occurred_at = now;
  reason = input.reason;
  target_id = c.id;
  version = c.version;
}

abbrev pub command_key : MutationInput → String
command_key input = joined (kind_name input.mutation) input.idempotency_key

-- The conversation and the messages are written before the audit, which may fail.
abbrev pub commit : MutationInput → Runtime → Inbox → Conversation → Result InboxError Reply × Inbox
commit input runtime s c =
    let c' = mutated input.mutation c input.actor.id runtime.now in
    let (reply, messages) = answer input.mutation input runtime c' s.messages in
    let t : Inbox = record s {
      conversations = put input.conversation_id c' s.conversations;
      messages = messages;
    } in
    let handled : Handled = record { fingerprint = input.fingerprint; result = reply } in
    if runtime.append_audit (audit_of input c' runtime.now)
    then (ok reply, record t { commands = put (command_key input) handled t.commands })
    else (err audit_failed, t)

abbrev pub attempt :
    MutationInput
    → Runtime
    → Inbox
    → Result InboxError Conversation
    → Result InboxError Reply × Inbox
attempt input runtime s (err e) = (err e, s)
attempt input runtime s (ok c) = commit input runtime s c

abbrev pub replay : MutationInput → Inbox → Handled → Result InboxError Reply × Inbox
replay input s h =
    if h.fingerprint == input.fingerprint
    then (ok h.result, s)
    else (err (conflict_error "Idempotency key was reused with another command"), s)

unfoldable pub mutate_conversation : MutationInput → Runtime → Exec Reply
unfolding exclusive mutated answer
mutate_conversation input runtime = exclusive λ s. elim (lookup (command_key input) s.commands) [
  | some h ↦ replay input s h
  | none ↦ attempt input runtime s (check_mutation s input runtime)
]
