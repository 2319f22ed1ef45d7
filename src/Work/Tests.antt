-- ===== src/Work/Tests.antt =====
-- Runs of the work repository, and its theorems on them.
use crm_silmer.Base.{
  ok, err, lookup, put, values, ℕ, String, ◌≡◌, refl, true, none, some, List, [], ◌∷◌,
}
use crm_silmer.Work.{
  conflict_error, ActorKind, human, automation_executor, User, active, Deal, assistant,
  Conversation, accepted, Store, Stamp, get_deal, get_conversation, get_handoff, get_user,
  human_actor, assign,
}
use crm_silmer.Work.Handoffs.{CreateHandoff, check_create_handoff, create_handoff}
use crm_silmer.Work.Answers.{
  HandoffAction, accept, resolve, transfer, UpdateHandoff, act, check_update_handoff,
  update_handoff,
}
use crm_silmer.Work.Commands.{Command, creates_handoff, updates_handoff, execute, run}
use crm_silmer.Work.Exclusive.{IsExclusive, run-IsExclusive}
use crm_silmer.Work.Counted.{IsAccounted, execute-IsAccounted}
use crm_silmer.Work.Fence.{IsHumanLed, create_handoff-fences_automation}

abbrev seller_ana : User
seller_ana = record { id = "ana"; function_name = "Vendedor"; disabled_at = none }

abbrev seller_bia : User
seller_bia = record { id = "bia"; function_name = "Vendedor"; disabled_at = none }

abbrev deal : Deal
deal = record {
  id = "d1";
  contact_id = "c1";
  assigned_user_id = none;
  status = active;
  version = 1;
  updated_at = 0;
}

abbrev talk : Conversation
talk = record {
  id = "v1";
  contact_id = "c1";
  assigned_user_id = none;
  automation_epoch = 4;
  automation_state = assistant;
  state = "nova";
  terminal_at = none;
  version = 1;
  updated_at = 0;
}

abbrev start_store : Store
start_store = record {
  assignment_history = [];
  conversations = ("v1", talk) ∷ [];
  deals = ("d1", deal) ∷ [];
  handoffs = [];
  handoff_history = [];
  tasks = [];
  task_history = [];
  users = ("ana", seller_ana) ∷ ("bia", seller_bia) ∷ [];
}

abbrev by : ActorKind → String → Stamp
by kind who = record {
  actor = record { id = who; kind = kind };
  correlation_id = "k";
  occurred_at = 10;
  reason_code = "price_before_quote";
}

abbrev hand_over : ActorKind → ℕ → ℕ → CreateHandoff
hand_over kind deal_version conversation_version = record {
  stamp = by kind "ana";
  deal_id = "d1";
  expected_deal_version = deal_version;
  conversation_id = "v1";
  expected_conversation_version = conversation_version;
  assigned_user_id = "ana";
  automation_epoch = 4;
  automation_context = none;
  commercial_reason = true;
  due_at = 60;
  sla_minutes = 30;
  sla_policy_version = "1";
  summary_envelope = "s";
  task_text_envelope = "t";
}

abbrev move : HandoffAction → String → ℕ → ℕ → ℕ → UpdateHandoff
move action who handoff_version deal_version conversation_version = record {
  stamp = by human who;
  handoff_id = "h1";
  expected_handoff_version = handoff_version;
  expected_deal_version = deal_version;
  expected_conversation_version = conversation_version;
  expected_task_version = handoff_version;
  action = action;
}

-- A handoff by the automation, a second one that is refused, its acceptance and its transfer.
abbrev commands : List Command
commands =
    creates_handoff (hand_over automation_executor 1 1) "h1" "t1"
    ∷ creates_handoff (hand_over human 2 2) "h2" "t2"
    ∷ updates_handoff (move accept "ana" 1 2 2)
    ∷ updates_handoff (move (transfer "bia") "ana" 2 2 2)
    ∷ []

abbrev handed_store : Store
handed_store = run start_store (creates_handoff (hand_over human 1 1) "h1" "t1" ∷ [])

run-once : values (run start_store commands).handoffs ≡ (
    record {
      id = "h1";
      deal_id = "d1";
      conversation_id = "v1";
      assigned_user_id = some "bia";
      automation_context = none;
      reason_code = "price_before_quote";
      target_role = "Vendedor";
      sla_minutes = 30;
      sla_policy_version = "1";
      status = accepted;
      summary_envelope = "s";
      due_at = 60;
      created_at = 10;
      updated_at = 10;
      version = 3;
    }
    ∷ [])
unfolding run execute create_handoff update_handoff check_create_handoff check_update_handoff act
    values put lookup get_deal get_user get_conversation get_handoff human_actor assign
run-once = refl

create_again :
    create_handoff handed_store (hand_over human 2 2) "h2" "t2"
    ≡ err (conflict_error "An active handoff already exists")
unfolding run execute create_handoff check_create_handoff values put lookup get_deal get_user
    get_conversation human_actor assign
create_again = refl

start_store-IsExclusive : IsExclusive start_store.handoffs
unfolding lookup
start_store-IsExclusive = record { one = λ j k h h' e e' o o' s. cc }

run-IsExclusive_example : IsExclusive (run start_store commands).handoffs
run-IsExclusive_example = run-IsExclusive start_store commands start_store-IsExclusive

start_store-IsAccounted : IsAccounted start_store
unfolding lookup
start_store-IsAccounted = record {
  task_map = tt;
  task_count = record { keyed = λ k v e. cc; counted = λ k v e. cc; unused = λ k e. refl };
  handoff_count = record { keyed = λ k v e. cc; counted = λ k v e. cc; unused = λ k e. refl };
}

start_handoff : create_handoff start_store (hand_over human 1 1) "h1" "t1" ≡ ok handed_store
unfolding run execute create_handoff check_create_handoff values put lookup get_deal get_user
    get_conversation human_actor assign
start_handoff = refl

execute-IsAccounted_example : IsAccounted handed_store
unfolding execute lookup
execute-IsAccounted_example =
    execute-IsAccounted start_store (creates_handoff (hand_over human 1 1) "h1" "t1")
      {t = handed_store} start_handoff (refl, refl) start_store-IsAccounted

handed_store-IsHumanLed : IsHumanLed handed_store "v1"
unfolding run execute create_handoff check_create_handoff values put lookup get_deal get_user
    get_conversation human_actor assign
handed_store-IsHumanLed = refl

create_handoff-fences_automation_example : ¬ (
    (u : Store) × (create_handoff
        (run handed_store (updates_handoff (move resolve "ana" 1 2 2) ∷ []))
        (hand_over automation_executor 2 2)
        "h3"
        "t3"
      ≡ ok u))
create_handoff-fences_automation_example =
    create_handoff-fences_automation start_store (hand_over human 1 1) "h1" "t1" {t = handed_store}
      (updates_handoff (move resolve "ana" 1 2 2) ∷ []) (hand_over automation_executor 2 2) "h3"
      "t3" start_handoff refl refl
