-- ===== src/Work/Fence.antt =====
-- The fence between the automation and the people who lead a conversation.
use crm_silmer.Base.{
  ok, >>=-eq-ok, guard-eq-ok, after, after-keeps, Table, lookup, put, lookup-put, String, ◌≡◌, refl,
  Bool, true, false, not, Option, none, some, List, [], ◌∷◌, arith, eq_iff,
}
use crm_silmer.Work.{
  automation_executor, Deal, Conversation, Task, Handoff, Store, Stamp, get_user, assign,
}
use crm_silmer.Work.Handoffs.{CreateHandoff, is_human_led, is_resolved, handed_over, create_handoff}
use crm_silmer.Work.Answers.{
  HandoffAction, accept, resolve, transfer, UpdateHandoff, Change, transferred, act, update_handoff,
}
use crm_silmer.Work.Commands.{
  Command, assigns, creates_task, updates_task, creates_handoff, updates_handoff, claims_handoff,
  execute, run,
}
use crm_silmer.Work.Inversion.{create_handoff-eq-ok}
use crm_silmer.Work.Answered.{update_handoff-eq-ok, claim_handoff-eq-ok}
use crm_silmer.Work.Frames.{assign_deal-handoffs, create_task-eq-ok, update_task-eq-ok}

-- The conversation exists and people lead it.
abbrev pub led_at : Option Conversation → Bool
led_at none = false
led_at (some c) = is_human_led c.automation_state

abbrev pub IsHumanLed : Store → String → Type 0
IsHumanLed s id = led_at (lookup id s.conversations) ≡ true

put-led_at :
    (t : Table Conversation) (id k : String) (c : Conversation)
    → is_human_led c.automation_state ≡ true
    → led_at (lookup id t) ≡ true
    → led_at (lookup id (put k c t)) ≡ true
put-led_at t id k c led l = ground (arith, lookup-put k id c t)

act-led_at :
    (s : Store) (input : Stamp) (a : HandoffAction) (h : Handoff) (d : Deal) (c : Conversation)
    (t : Task) {change : Change} (id : String)
    → act s input a h d c t ≡ ok change
    → is_human_led c.automation_state ≡ true
    → IsHumanLed s id
    → IsHumanLed change.store id
unfolding act assign
act-led_at s input accept h d c t id e led l = ground arith
act-led_at s input resolve h d c t id e led l = ground arith
act-led_at s input (transfer user_id) h d c t {change} id e led l =
    let (_, e1) = guard-eq-ok (not (is_resolved h.status)) _ _ e in
    let (u, _, e2) = >>=-eq-ok (get_user s user_id) _ e1 in
    ground (arith, put-led_at s.conversations id h.conversation_id (transferred c u input) led l)

update_handoff-IsHumanLed :
    (s : Store) (input : UpdateHandoff) (id : String) {t : Store}
    → update_handoff s input ≡ ok t
    → IsHumanLed s id
    → IsHumanLed t id
update_handoff-IsHumanLed s input id e l =
    let w = update_handoff-eq-ok s input e in
    rw w.result (
      act-led_at s input.stamp input.action w.handoff w.deal w.conversation w.task id w.acting
        w.checks.led l)

-- No command gives a conversation that people lead back to the automation.
pub execute-IsHumanLed :
    (s : Store) (c : Command) (id : String) {t : Store}
    → execute s c ≡ ok t
    → IsHumanLed s id
    → IsHumanLed t id
unfolding execute
execute-IsHumanLed s (assigns input deal_id version user_id) id e l =
    rw (assign_deal-handoffs s input deal_id version user_id e).conversations l
execute-IsHumanLed s (creates_task input task_id) id e l =
    rw (create_task-eq-ok s input task_id e).conversations l
execute-IsHumanLed s (updates_task input) id e l = rw (update_task-eq-ok s input e).conversations l
execute-IsHumanLed s (creates_handoff input handoff_id task_id) id e l =
    let w = create_handoff-eq-ok s input handoff_id task_id e in
    rw w.conversations (put-led_at s.conversations id input.conversation_id _ refl l)
execute-IsHumanLed s (updates_handoff input) id e l = update_handoff-IsHumanLed s input id e l
execute-IsHumanLed s (claims_handoff input) id e l =
    let w = claim_handoff-eq-ok s input e in
    rw w.conversations (put-led_at s.conversations id w.handoff.conversation_id _ w.led l)

-- A conversation that people lead is led by people after any sequence of commands.
pub run-IsHumanLed :
    (s : Store) (cs : List Command) (id : String) → IsHumanLed s id → IsHumanLed (run s cs) id
unfolding run
run-IsHumanLed s [] id l = l
run-IsHumanLed s (c ∷ cs) id l =
    run-IsHumanLed (after s (execute s c)) cs id
      (after-keeps (λ t. IsHumanLed t id) s (execute s c) (λ t e. execute-IsHumanLed s c id e l) l)

create_handoff-IsHumanLed :
    (s : Store) (input : CreateHandoff) (handoff_id task_id : String) {t : Store}
    → create_handoff s input handoff_id task_id ≡ ok t
    → IsHumanLed t input.conversation_id
create_handoff-IsHumanLed s input handoff_id task_id e =
    let w = create_handoff-eq-ok s input handoff_id task_id e in
    let c = handed_over w.conversation w.user input.stamp in
    rw w.conversations (
      ground (
        arith,
        lookup-put input.conversation_id input.conversation_id c s.conversations,
        eq_iff input.conversation_id input.conversation_id,
      ))

automation_needs_assistant :
    (s : Store) (input : CreateHandoff) (handoff_id task_id : String) {t : Store}
    → create_handoff s input handoff_id task_id ≡ ok t
    → input.actor.kind ≡ automation_executor
    → led_at (lookup input.conversation_id s.conversations) ≡ false
automation_needs_assistant s input handoff_id task_id e automated =
    let w = create_handoff-eq-ok s input handoff_id task_id e in
    ground (arith, w.checks.conversation, w.checks.fence)

-- After a handoff of a conversation and any commands, an automation cannot hand the same
-- conversation over, whatever epoch it claims.
pub create_handoff-fences_automation :
    (s : Store) (input : CreateHandoff) (handoff_id task_id : String) {t : Store}
    (cs : List Command) (late : CreateHandoff) (handoff_id' task_id' : String)
    → create_handoff s input handoff_id task_id ≡ ok t
    → late.actor.kind ≡ automation_executor
    → late.conversation_id ≡ input.conversation_id
    → ¬ ((u : Store) × (create_handoff (run t cs) late handoff_id' task_id' ≡ ok u))
create_handoff-fences_automation s input handoff_id task_id {t} cs late handoff_id' task_id' e
      automated same (u, again) =
    let led =
      run-IsHumanLed t cs input.conversation_id
        (create_handoff-IsHumanLed s input handoff_id task_id e) in
    let free = automation_needs_assistant (run t cs) late handoff_id' task_id' again automated in
    ground (arith, led, free, same)
