-- ===== src/Inbox/Inbounds.antt =====
-- `receiveInbound` and `recordSuggestion`: inbound messages and the suggestions about them.
use crm_silmer.Base.{
  ltb, leb, text_eq, nat_eq, ◌==◌, if◌then◌else◌, is_some, Result, ok, err, guard, ◌>>◌, find, keep,
  lookup, put, values, ℕ, ◌+◌, String, Bool, not, Option, none, some, List, [], ◌∷◌,
}
use crm_silmer.Inbox.{
  nova, assistant, InboxError, conflict_error, Conversation, inbound, Message, Reply, received,
  Suggestion, Inbox, joined, Exec, exclusive,
}

pub record Inbound : Type 0 where
  pub provider : String
  pub provider_account_id : String
  pub external_message_id : String
  pub external_conversation_id : String
  pub contact_id : String
  pub identity_id : String
  pub occurred_at : ℕ
  pub content : String
  pub type : String

-- The greatest cycle number, from 0.
unfoldable pub last_cycle : List Conversation → ℕ
last_cycle [] = 0
last_cycle (c ∷ cs) = let m = last_cycle cs in if leb m c.cycle_number then c.cycle_number else m

-- The first conversation with the greatest cycle number, as the stable sort puts it first.
unfoldable pub latest : List Conversation → Option Conversation
unfolding last_cycle
latest cs = find (λ (c : Conversation). c.cycle_number == last_cycle cs) cs

abbrev pub scoped : String → Inbox → List Conversation
scoped scope s = keep (λ (c : Conversation). c.scope == scope) (values s.conversations)

abbrev pub is_ongoing : Conversation → Bool
is_ongoing c = not (is_some c.terminal_at)

abbrev pub id_of : Option Conversation → Option String
id_of none = none
id_of (some c) = some c.id

abbrev pub opened : Inbound → String → String → List Conversation → Conversation
opened input scope id others = record {
  id = id;
  scope = scope;
  provider = input.provider;
  provider_account_id = input.provider_account_id;
  external_conversation_id = input.external_conversation_id;
  contact_id = input.contact_id;
  identity_id = input.identity_id;
  cycle_number = last_cycle others + 1;
  previous_conversation_id = id_of (latest others);
  automation_epoch = 0;
  automation_state = assistant;
  assigned_user_id = none;
  state = nova;
  closure_outcome = none;
  closed_by = none;
  archived_at = none;
  terminal_at = none;
  created_at = input.occurred_at;
  updated_at = input.occurred_at;
  version = 1;
}

abbrev pub refreshed : Inbound → Conversation → Conversation
refreshed input c = record c {
  updated_at = if ltb c.updated_at input.occurred_at then input.occurred_at else c.updated_at;
  version = c.version + 1;
  archived_at = none;
}

abbrev pub inbound_message : Inbound → Conversation → String → Message
inbound_message input c id = record {
  id = id;
  author_id = none;
  content = input.content;
  conversation_id = c.id;
  conversation_version = none;
  created_at = input.occurred_at;
  direction = inbound;
  external_message_id = some input.external_message_id;
  provider = input.provider;
  provider_account_id = input.provider_account_id;
  type = input.type;
}

-- The conversation that the message belongs to, new or refreshed.
unfoldable pub anchor :
    Inbound
    → String
    → String
    → List Conversation
    → Option Conversation
    → Result InboxError Conversation
unfolding last_cycle latest
anchor input scope id others none = ok (opened input scope id others)
anchor input scope id others (some c) = do
  guard (c.identity_id == input.identity_id)
      (conflict_error "An active conversation cannot change its anchored identity")
  ok (refreshed input c)

abbrev pub message_key : Inbound → String
message_key input =
    joined input.provider (joined input.provider_account_id input.external_message_id)

abbrev pub scope_of : Inbound → String
scope_of input =
    joined input.provider (joined input.provider_account_id input.external_conversation_id)

abbrev pub stored_inbound : Inbound → String → Inbox → Conversation → Inbox × Reply
stored_inbound input message_id s c =
    let reply = received c (inbound_message input c message_id) in
    (
      record s {
        conversations = put c.id c s.conversations;
        messages = put (message_key input) reply s.messages;
      },
      reply,
    )

abbrev pub finish_inbound :
    Inbound → String → Inbox → Result InboxError Conversation → Result InboxError Reply × Inbox
finish_inbound input message_id s (err e) = (err e, s)
finish_inbound input message_id s (ok c) =
    let (t, reply) = stored_inbound input message_id s c in (ok reply, t)

unfoldable pub receive_inbound : Inbound → (conversation_id message_id : String) → Exec Reply
unfolding exclusive anchor
receive_inbound input conversation_id message_id = exclusive λ s.
    elim (lookup (message_key input) s.messages) [
      | some reply ↦ (ok reply, s)
      | none ↦
          let others = scoped (scope_of input) s in
          finish_inbound input message_id s
            (anchor input (scope_of input) conversation_id others (find is_ongoing others))
    ]

pub record SuggestionInput : Type 0 where
  pub source_message_id : String
  pub proposed_stage : String
  pub conversation_id : String
  pub question : String
  pub actor_id : String

abbrev pub suggested :
    SuggestionInput
    → String
    → ℕ
    → Inbox
    → Option Conversation
    → Result InboxError Suggestion × Inbox
suggested input id now s none = (err (conflict_error "Conversation was not found"), s)
suggested input id now s (some c) =
    let suggestion : Suggestion = record {
      id = id;
      automation_epoch = c.automation_epoch;
      conversation_id = c.id;
      created_at = now;
      created_by = input.actor_id;
      proposed_stage = input.proposed_stage;
      question = input.question;
      source_message_id = input.source_message_id;
    } in
    (
      ok suggestion,
      record s {
        suggestions =
            put (joined input.source_message_id input.proposed_stage) suggestion s.suggestions;
      },
    )

unfoldable pub record_suggestion : SuggestionInput → (id : String) (now : ℕ) → Exec Suggestion
unfolding exclusive
record_suggestion input id now = exclusive λ s.
    elim (lookup (joined input.source_message_id input.proposed_stage) s.suggestions) [
      | some suggestion ↦ (ok suggestion, s)
      | none ↦ suggested input id now s (lookup input.conversation_id s.conversations)
    ]
