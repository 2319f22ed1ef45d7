-- ===== src/Work/Tasks.antt =====
-- `createTask` and `updateTask`.
use crm_silmer.Base.{
  text_eq, nat_eq, ◌==◌, is_some, Result, ok, guard, or_throw, ◌>>=◌, ◌>>◌, put, ℕ, ◌+◌, String,
  not, Option, none, some, [], ◌∷◌, ◌++◌,
}
use crm_silmer.Work.{
  WorkError, conflict_error, User, Deal, TaskStatus, pending, in_progress, completed, cancelled,
  follow_up, Task, Store, Stamp, history, get_deal, get_task, get_user, human_actor,
}

pub record CreateTask : Type 0 where
  pub stamp : Stamp
  pub open stamp use *
  pub deal_id : String
  pub expected_deal_version : ℕ
  pub assigned_user_id : String
  pub due_at : ℕ
  pub text_envelope : String

abbrev pub new_task : CreateTask → Deal → User → String → Task
new_task input deal user id = record {
  id = id;
  deal_id = deal.id;
  handoff_id = none;
  assigned_user_id = user.id;
  type = follow_up;
  status = pending;
  text_envelope = input.text_envelope;
  due_at = input.due_at;
  created_at = input.occurred_at;
  updated_at = input.occurred_at;
  version = 1;
}

-- `id` is what `idFactory('task')` returns.
unfoldable pub create_task : Store → CreateTask → (id : String) → Result WorkError Store
unfolding history
create_task s input id = do
  human_actor s input.actor
  deal ← get_deal s input.deal_id input.expected_deal_version
  user ← get_user s input.assigned_user_id
  let deal' : Deal = record deal { version = deal.version + 1; updated_at = input.occurred_at }
  ok (record s {
    deals = put input.deal_id deal' s.deals;
    tasks = put id (new_task input deal user id) s.tasks;
    task_history = s.task_history ++ history id 1 none pending input.stamp ∷ [];
  })

pub data TaskAction : Type 0 where
  cancel complete start : TaskAction

-- The table `transitions`: where the action leads from a status, if it may be taken there.
unfoldable pub transition : TaskAction → TaskStatus → Option TaskStatus
transition cancel pending = some cancelled
transition cancel in_progress = some cancelled
transition complete pending = some completed
transition complete in_progress = some completed
transition start pending = some in_progress
transition _ _ = none

pub record UpdateTask : Type 0 where
  pub stamp : Stamp
  pub open stamp use *
  pub task_id : String
  pub expected_task_version : ℕ
  pub action : TaskAction

abbrev pub moved_task : UpdateTask → Task → TaskStatus → Task
moved_task input task to = record task {
  status = to;
  version = task.version + 1;
  updated_at = input.occurred_at;
}

unfoldable pub update_task : Store → UpdateTask → Result WorkError Store
unfolding history
update_task s input = do
  human_actor s input.actor
  task ← get_task s input.task_id input.expected_task_version
  guard (not (is_some task.handoff_id))
      (conflict_error "Handoff tasks can only change with their handoff")
  guard (task.assigned_user_id == input.actor.id)
      (conflict_error "Task belongs to another assignee")
  to ←
      or_throw (transition input.action task.status)
        (conflict_error "Task state conflicts with action")
  ok (record s {
    tasks = put input.task_id (moved_task input task to) s.tasks;
    task_history =
        s.task_history ++ history task.id (task.version + 1) (some task.status) to input.stamp ∷ [];
  })
