-- ===== src/Work/Counted.antt =====
-- The versions of tasks and handoffs against their histories.
use crm_silmer.Base.{
  ok, Table, lookup, IsMap, put-IsMap, find-lookup, IsCounted, put-IsCounted_bump,
  put-IsCounted_new, ℕ, ◌+◌, String, ◌≡◌, refl, ap, ◌∙◌, none, List,
}
use crm_silmer.Work.{
  TaskStatus, Task, HandoffStatus, Handoff, History, Store, Stamp, history, assign_deal,
}
use crm_silmer.Work.Handoffs.{CreateHandoff, create_handoff}
use crm_silmer.Work.Answers.{UpdateHandoff, update_handoff, ClaimHandoff, claim_handoff}
use crm_silmer.Work.Tasks.{CreateTask, create_task, UpdateTask, update_task}
use crm_silmer.Work.Commands.{
  Command, assigns, creates_task, updates_task, creates_handoff, updates_handoff, claims_handoff,
  execute,
}
use crm_silmer.Work.Inversion.{create_handoff-eq-ok}
use crm_silmer.Work.Answered.{update_handoff-eq-ok, claim_handoff-eq-ok}
use crm_silmer.Work.Frames.{assign_deal-handoffs, create_task-eq-ok, update_task-eq-ok}

abbrev pub TasksCounted : Table Task → List (History TaskStatus) → Type 0
TasksCounted = IsCounted (λ t. t.id) (λ t. t.version) (λ e. e.entity_id)

abbrev pub HandoffsCounted : Table Handoff → List (History HandoffStatus) → Type 0
HandoffsCounted = IsCounted (λ h. h.id) (λ h. h.version) (λ e. e.entity_id)

pub record Accounts (tasks : Table Task) (task_history : List (History TaskStatus))
    (handoffs : Table Handoff) (handoff_history : List (History HandoffStatus)) : Type 0 where
  pub task_map : IsMap tasks
  pub task_count : TasksCounted tasks task_history
  pub handoff_count : HandoffsCounted handoffs handoff_history

abbrev pub IsAccounted : Store → Type 0
IsAccounted s = Accounts s.tasks s.task_history s.handoffs s.handoff_history

-- `idFactory` returns ids that are not in use.
abbrev pub FreshFor : Store → Command → Type 0
FreshFor s (creates_task input id) = lookup id s.tasks ≡ none
FreshFor s (creates_handoff input handoff_id task_id) =
    (lookup handoff_id s.handoffs ≡ none) × (lookup task_id s.tasks ≡ none)
FreshFor s _ = Unit

assign_deal-IsAccounted :
    (s : Store) (input : Stamp) (id : String) (version : ℕ) (user_id : String) {t : Store}
    → assign_deal s input id version user_id ≡ ok t
    → IsAccounted s
    → IsAccounted t
assign_deal-IsAccounted s input id version user_id h a =
    let same = assign_deal-handoffs s input id version user_id h in
    rw (same.handoffs, same.tasks, same.handoff_history, same.task_history) a

create_task-IsAccounted :
    (s : Store) (input : CreateTask) (id : String) {t : Store}
    → create_task s input id ≡ ok t
    → lookup id s.tasks ≡ none
    → IsAccounted s
    → IsAccounted t
create_task-IsAccounted s input id h free a =
    let w = create_task-eq-ok s input id h in
    rw (w.handoffs, w.tasks, w.handoff_history, w.task_history)
      (record {
        task_map = put-IsMap id w.task s.tasks a.task_map;
        task_count =
            put-IsCounted_new _ _ _ s.tasks s.task_history id w.task w.entry a.task_count free
              w.named w.version w.about;
        handoff_count = a.handoff_count;
      })

update_task-IsAccounted :
    (s : Store) (input : UpdateTask) {t : Store}
    → update_task s input ≡ ok t
    → IsAccounted s
    → IsAccounted t
update_task-IsAccounted s input h a =
    let w = update_task-eq-ok s input h in
    let same = a.task_count.keyed input.task_id w.task w.found in
    rw (w.handoffs, w.tasks, w.handoff_history, w.task_history)
      (record {
        task_map = put-IsMap input.task_id w.task' s.tasks a.task_map;
        task_count =
            put-IsCounted_bump _ _ _ s.tasks s.task_history input.task_id w.task' w.entry w.task
              a.task_count w.found (w.named ∙ same) w.version (w.about ∙ same);
        handoff_count = a.handoff_count;
      })

create_handoff-IsAccounted :
    (s : Store) (input : CreateHandoff) (handoff_id task_id : String) {t : Store}
    → create_handoff s input handoff_id task_id ≡ ok t
    → lookup handoff_id s.handoffs ≡ none
    → lookup task_id s.tasks ≡ none
    → IsAccounted s
    → IsAccounted t
create_handoff-IsAccounted s input handoff_id task_id h free free_task a =
    let w = create_handoff-eq-ok s input handoff_id task_id h in
    rw (w.handoffs, w.tasks, w.handoff_history, w.task_history)
      (record {
        task_map = put-IsMap task_id _ s.tasks a.task_map;
        task_count =
            put-IsCounted_new _ _ _ s.tasks s.task_history task_id _ _ a.task_count free_task refl
              refl w.task_about;
        handoff_count =
            put-IsCounted_new _ _ _ s.handoffs s.handoff_history handoff_id _ _ a.handoff_count free
              refl refl w.handoff_about;
      })

claim_handoff-IsAccounted :
    (s : Store) (input : ClaimHandoff) {t : Store}
    → claim_handoff s input ≡ ok t
    → IsAccounted s
    → IsAccounted t
claim_handoff-IsAccounted s input h a =
    let w = claim_handoff-eq-ok s input h in
    let same = a.handoff_count.keyed input.handoff_id w.handoff w.found in
    rw (w.handoffs, w.tasks, w.handoff_history, w.task_history)
      (record {
        task_map = a.task_map;
        task_count = a.task_count;
        handoff_count =
            put-IsCounted_bump _ _ _ s.handoffs s.handoff_history input.handoff_id _ w.entry
              w.handoff a.handoff_count w.found same refl (w.about ∙ same);
      })

update_handoff-IsAccounted :
    (s : Store) (input : UpdateHandoff) {t : Store}
    → update_handoff s input ≡ ok t
    → IsAccounted s
    → IsAccounted t
unfolding history
update_handoff-IsAccounted s input h a =
    let w = update_handoff-eq-ok s input h in
    let same = a.handoff_count.keyed input.handoff_id w.handoff w.checks.handoff in
    let (key, found) = find-lookup _ s.tasks w.task a.task_map w.checks.task in
    let here = a.task_count.keyed key w.task found in
    rw (w.result, w.acted.handoffs, w.acted.tasks, w.acted.handoff_history, w.acted.task_history)
      (record {
        task_map = put-IsMap w.task.id _ s.tasks a.task_map;
        task_count =
            put-IsCounted_bump _ _ _ s.tasks s.task_history w.task.id _ _ w.task a.task_count
              (rw here found) w.acted.task_id (ap (λ n. n + 1) w.acted.task_version) refl;
        handoff_count =
            put-IsCounted_bump _ _ _ s.handoffs s.handoff_history input.handoff_id _ _ w.handoff
              a.handoff_count w.checks.handoff (w.acted.handoff_id ∙ same)
              (ap (λ n. n + 1) w.acted.handoff_version) same;
      })

-- After every command with fresh ids, the version of each task and of each handoff is still the
-- number of its history entries.
pub execute-IsAccounted :
    (s : Store) (c : Command) {t : Store}
    → execute s c ≡ ok t
    → FreshFor s c
    → IsAccounted s
    → IsAccounted t
unfolding execute
execute-IsAccounted s (assigns input deal_id version user_id) h f a =
    assign_deal-IsAccounted s input deal_id version user_id h a
execute-IsAccounted s (creates_task input id) h f a = create_task-IsAccounted s input id h f a
execute-IsAccounted s (updates_task input) h f a = update_task-IsAccounted s input h a
execute-IsAccounted s (creates_handoff input handoff_id task_id) h f a =
    create_handoff-IsAccounted s input handoff_id task_id h f.0 f.1 a
execute-IsAccounted s (updates_handoff input) h f a = update_handoff-IsAccounted s input h a
execute-IsAccounted s (claims_handoff input) h f a = claim_handoff-IsAccounted s input h a
