-- ===== src/Work/Handoffs.antt =====
-- `createHandoff`: the checks and the writes of a new handoff.
use crm_silmer.Work.{HandoffStatus, pending, resolved, TaskStatus}
use crm_silmer.Base.{
  text_eq, nat_eq, ◌==◌, is_some, Result, ok, guard, ◌>>=◌, ◌>>◌, any, put, values, ℕ, ◌+◌, String,
  Bool, true, false, not, ◌&&◌, ◌||◌, Option, none, some, [], ◌∷◌, ◌++◌,
}
use crm_silmer.Work.{
  WorkError, validation_error, conflict_error, ActorKind, human, automation_executor, User,
  DealStatus, active, Deal, AutomationState, assistant, human_led, Conversation, human_handoff,
  Task, AutomationContext, Handoff, Store, Stamp, history, get_deal, get_conversation, get_user,
  human_actor, assign,
}

pub record CreateHandoff : Type 0 where
  pub stamp : Stamp
  pub open stamp use *
  pub deal_id : String
  pub expected_deal_version : ℕ
  pub conversation_id : String
  pub expected_conversation_version : ℕ
  pub assigned_user_id : String
  pub automation_epoch : ℕ
  pub automation_context : Option AutomationContext
  pub commercial_reason : Bool
  pub due_at : ℕ
  pub sla_minutes : ℕ
  pub sla_policy_version : String
  pub summary_envelope : String
  pub task_text_envelope : String

abbrev pub is_active : DealStatus → Bool
is_active active = true
is_active _ = false

abbrev pub is_human_led : AutomationState → Bool
is_human_led human_led = true
is_human_led assistant = false

-- An automation may hand over only while it leads, at the epoch that it read.
abbrev pub fence_holds : ActorKind → Conversation → ℕ → Bool
fence_holds human c epoch = true
fence_holds automation_executor c epoch =
    not (is_human_led c.automation_state) && c.automation_epoch == epoch

abbrev pub is_resolved : HandoffStatus → Bool
is_resolved resolved = true
is_resolved _ = false

-- An unresolved handoff of the deal or of the conversation.
abbrev pub collides : Deal → Conversation → Handoff → Bool
collides deal conversation h =
    not (is_resolved h.status) && (h.deal_id == deal.id || h.conversation_id == conversation.id)

-- The conversation as `createHandoff` leaves it.
abbrev pub handed_over : Conversation → User → Stamp → Conversation
handed_over c user input = record c {
  assigned_user_id = some user.id;
  automation_epoch = c.automation_epoch + 1;
  automation_state = human_led;
  state = "em_atendimento";
  version = c.version + 1;
  updated_at = input.occurred_at;
}

abbrev pub new_handoff : CreateHandoff → Deal → Conversation → User → String → Handoff
new_handoff input deal conversation user id = record {
  id = id;
  deal_id = deal.id;
  conversation_id = conversation.id;
  assigned_user_id = some user.id;
  automation_context = input.automation_context;
  reason_code = input.reason_code;
  target_role = user.function_name;
  sla_minutes = input.sla_minutes;
  sla_policy_version = input.sla_policy_version;
  status = pending;
  summary_envelope = input.summary_envelope;
  due_at = input.due_at;
  created_at = input.occurred_at;
  updated_at = input.occurred_at;
  version = 1;
}

abbrev pub new_handoff_task : CreateHandoff → Deal → User → String → String → Task
new_handoff_task input deal user handoff_id id = record {
  id = id;
  deal_id = deal.id;
  handoff_id = some handoff_id;
  assigned_user_id = user.id;
  type = human_handoff;
  status = TaskStatus.pending;
  text_envelope = input.task_text_envelope;
  due_at = input.due_at;
  created_at = input.occurred_at;
  updated_at = input.occurred_at;
  version = 1;
}

-- The checks of `createHandoff`, in the order of the source.
unfoldable pub check_create_handoff :
    Store → CreateHandoff → Result WorkError (Deal × Conversation × User)
check_create_handoff s input = do
  human_actor s input.actor
  deal ← get_deal s input.deal_id input.expected_deal_version
  conversation ← get_conversation s input.conversation_id input.expected_conversation_version
  user ← get_user s input.assigned_user_id
  guard (is_active deal.status) (conflict_error "Deal is not active")
  guard (not (is_some conversation.terminal_at) && conversation.contact_id == deal.contact_id)
      (conflict_error "Conversation is not active for the Deal contact")
  guard (fence_holds input.actor.kind conversation input.automation_epoch)
      (conflict_error "Automation fence is stale")
  guard (not (any (collides deal conversation) (values s.handoffs)))
      (conflict_error "An active handoff already exists")
  guard (not input.commercial_reason || user.function_name == "Vendedor")
      (validation_error "Commercial handoffs require a Vendedor")
  ok (deal, conversation, user)

-- `handoff_id` and `task_id` are what `idFactory` returns for the handoff and for its task.
unfoldable pub create_handoff :
    Store → CreateHandoff → (handoff_id task_id : String) → Result WorkError Store
unfolding history
create_handoff s input handoff_id task_id = do
  (deal, conversation, user) ← check_create_handoff s input
  let s' = assign s input.deal_id deal user input.stamp
  ok (record s' {
    conversations =
        put input.conversation_id (handed_over conversation user input.stamp) s'.conversations;
    handoffs = put handoff_id (new_handoff input deal conversation user handoff_id) s'.handoffs;
    tasks = put task_id (new_handoff_task input deal user handoff_id task_id) s'.tasks;
    handoff_history = s'.handoff_history ++ history handoff_id 1 none pending input.stamp ∷ [];
    task_history = s'.task_history ++ history task_id 1 none TaskStatus.pending input.stamp ∷ [];
  })
