-- ===== src/Work/Answers.antt =====
-- `updateHandoff` and `claimHandoff`: accepting, transferring, resolving and claiming a handoff.
use crm_silmer.Work.{HandoffStatus, pending, accepted, resolved, TaskStatus, in_progress, completed}
use crm_silmer.Base.{
  text_eq, nat_eq, ◌==◌, is_some, is_text, Result, ok, guard, or_throw, ◌>>=◌, ◌>>◌, find, lookup,
  put, values, ℕ, ◌+◌, String, Bool, true, false, not, ◌&&◌, ◌||◌, Option, none, some, [], ◌∷◌,
  ◌++◌,
}
use crm_silmer.Work.{
  WorkError, validation_error, conflict_error, forbidden_error, User, Deal, Conversation, Task,
  Handoff, Store, Stamp, history, get_deal, get_conversation, get_handoff, get_user, human_actor,
  assign,
}
use crm_silmer.Work.Handoffs.{is_human_led, is_resolved}

pub data HandoffAction : Type 0 where
  accept resolve : HandoffAction
  transfer : (assigned_user_id : String) → HandoffAction

pub record UpdateHandoff : Type 0 where
  pub stamp : Stamp
  pub open stamp use *
  pub handoff_id : String
  pub expected_handoff_version : ℕ
  pub expected_deal_version : ℕ
  pub expected_conversation_version : ℕ
  pub expected_task_version : ℕ
  pub action : HandoffAction

-- What an action writes besides the bump of the versions.
pub record Change : Type 0 where
  pub store : Store
  pub handoff : Handoff
  pub task : Task

abbrev pub is_pending_task : TaskStatus → Bool
is_pending_task TaskStatus.pending = true
is_pending_task _ = false

abbrev pub is_pending : HandoffStatus → Bool
is_pending pending = true
is_pending _ = false

abbrev pub transferred : Conversation → User → Stamp → Conversation
transferred c user input = record c {
  assigned_user_id = some user.id;
  version = c.version + 1;
  updated_at = input.occurred_at;
}

unfoldable pub act :
    Store → Stamp → HandoffAction → Handoff → Deal → Conversation → Task → Result WorkError Change
act s input accept handoff deal conversation task = do
  guard (is_pending handoff.status && is_pending_task task.status)
      (conflict_error "Handoff cannot be accepted")
  ok (record {
    store = s;
    handoff = record handoff { status = accepted };
    task = record task { status = in_progress };
  })
act s input (transfer assigned_user_id) handoff deal conversation task = do
  guard (not (is_resolved handoff.status)) (conflict_error "Handoff cannot be transferred")
  user ← get_user s assigned_user_id
  guard (not (handoff.reason_code == "price_before_quote") || user.function_name == "Vendedor")
      (validation_error "Commercial handoffs require a Vendedor")
  let s' = assign s handoff.deal_id deal user input
  ok (record {
    store = record s' {
      conversations =
          put handoff.conversation_id (transferred conversation user input) s'.conversations;
    };
    handoff = record handoff { assigned_user_id = some user.id };
    task = record task { assigned_user_id = user.id };
  })
act s input resolve handoff deal conversation task = do
  guard (not (is_resolved handoff.status)) (conflict_error "Handoff cannot be resolved")
  ok (record {
    store = s;
    handoff = record handoff { status = resolved };
    task = record task { status = completed };
  })

-- The checks of `updateHandoff` before its action.
unfoldable pub check_update_handoff :
    Store → UpdateHandoff → Result WorkError (Handoff × Deal × Conversation × Task)
check_update_handoff s input = do
  human_actor s input.actor
  handoff ← get_handoff s input.handoff_id input.expected_handoff_version
  deal ← get_deal s handoff.deal_id input.expected_deal_version
  conversation ← get_conversation s handoff.conversation_id input.expected_conversation_version
  task ←
      or_throw (find (λ (t : Task). is_text t.handoff_id handoff.id) (values s.tasks))
        (conflict_error "Handoff task version conflicts")
  guard (task.version == input.expected_task_version)
      (conflict_error "Handoff task version conflicts")
  guard (is_text handoff.assigned_user_id input.actor.id)
      (conflict_error "Handoff belongs to another assignee")
  guard (is_human_led conversation.automation_state)
      (conflict_error "Conversation automation state changed")
  ok (handoff, deal, conversation, task)

-- The versions go up and both histories grow, whatever the action was.
abbrev pub record_change : UpdateHandoff → Handoff → Task → Change → Store
record_change input handoff task c =
    let handoff' : Handoff = record c.handoff {
      version = c.handoff.version + 1;
      updated_at = input.occurred_at;
    } in
    let task' : Task = record c.task {
      version = c.task.version + 1;
      updated_at = input.occurred_at;
    } in
    record c.store {
      handoffs = put input.handoff_id handoff' c.store.handoffs;
      tasks = put task.id task' c.store.tasks;
      handoff_history =
          c.store.handoff_history
          ++ history handoff.id handoff'.version (some handoff.status) handoff'.status input.stamp
            ∷ [];
      task_history =
          c.store.task_history
          ++ history task.id task'.version (some task.status) task'.status input.stamp ∷ [];
    }

unfoldable pub update_handoff : Store → UpdateHandoff → Result WorkError Store
unfolding history
update_handoff s input = do
  (handoff, deal, conversation, task) ← check_update_handoff s input
  change ← act s input.stamp input.action handoff deal conversation task
  ok (record_change input handoff task change)

pub record ClaimHandoff : Type 0 where
  pub stamp : Stamp
  pub open stamp use *
  pub handoff_id : String
  pub expected_handoff_version : ℕ

-- What makes a handoff free to claim.
abbrev pub is_claimable : Handoff → Option Conversation → Bool
is_claimable h none = false
is_claimable h (some c) =
    is_pending h.status
    && not (is_some h.assigned_user_id)
    && not (is_some c.terminal_at)
    && is_human_led c.automation_state

unfoldable pub check_claim_handoff :
    Store → ClaimHandoff → Result WorkError (Handoff × User × Conversation)
check_claim_handoff s input = do
  human_actor s input.actor
  handoff ← get_handoff s input.handoff_id input.expected_handoff_version
  user ← get_user s input.actor.id
  let found = lookup handoff.conversation_id s.conversations
  guard (is_claimable handoff found) (conflict_error "Handoff was already claimed")
  conversation ← or_throw found (conflict_error "Handoff was already claimed")
  guard (user.function_name == handoff.target_role) forbidden_error
  ok (handoff, user, conversation)

unfoldable pub claim_handoff : Store → ClaimHandoff → Result WorkError Store
unfolding history
claim_handoff s input = do
  (handoff, user, conversation) ← check_claim_handoff s input
  let conversation' : Conversation = record conversation {
    assigned_user_id = some user.id;
    state = "em_atendimento";
    updated_at = input.occurred_at;
    version = conversation.version + 1;
  }
  let handoff' : Handoff = record handoff {
    assigned_user_id = some user.id;
    status = accepted;
    updated_at = input.occurred_at;
    version = handoff.version + 1;
  }
  ok (record s {
    conversations = put handoff.conversation_id conversation' s.conversations;
    handoffs = put input.handoff_id handoff' s.handoffs;
    handoff_history =
        s.handoff_history
        ++ history handoff.id handoff'.version (some handoff.status) accepted input.stamp ∷ [];
  })
