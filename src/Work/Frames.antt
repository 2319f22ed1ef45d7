-- ===== src/Work/Frames.antt =====
-- What the commands on deals and on follow-up tasks leave alone, and what they write.
use crm_silmer.Base.{
  text_eq, nat_eq, ◌==◌, is_some, ok, or_throw, >>=-eq-ok, guard-eq-ok, or_throw-eq-ok, lookup, put,
  ℕ, ◌+◌, String, ◌≡◌, refl, not, none, some, [], ◌∷◌, ◌++◌, arith,
}
use crm_silmer.Work.{
  conflict_error, TaskStatus, pending, Task, History, Store, Stamp, history, get_deal, get_task,
  get_user, human_actor, assign, assign_deal,
}
use crm_silmer.Work.Tasks.{
  CreateTask, new_task, create_task, transition, UpdateTask, moved_task, update_task,
}
use crm_silmer.Work.Inversion.{get_task-eq-ok}

pub record Frame (s t : Store) : Type 0 where
  pub handoffs : t.handoffs ≡ s.handoffs
  pub tasks : t.tasks ≡ s.tasks
  pub conversations : t.conversations ≡ s.conversations
  pub handoff_history : t.handoff_history ≡ s.handoff_history
  pub task_history : t.task_history ≡ s.task_history

pub assign_deal-handoffs :
    (s : Store) (input : Stamp) (id : String) (version : ℕ) (user_id : String) {t : Store}
    → assign_deal s input id version user_id ≡ ok t
    → Frame s t
unfolding assign_deal assign
assign_deal-handoffs s input id version user_id h = ground arith

pub record TaskCreated (s : Store) (id : String) (t : Store) : Type 0 where
  pub task : Task
  pub entry : History TaskStatus
  pub tasks : t.tasks ≡ put id task s.tasks
  pub task_history : t.task_history ≡ s.task_history ++ entry ∷ []
  pub handoffs : t.handoffs ≡ s.handoffs
  pub conversations : t.conversations ≡ s.conversations
  pub handoff_history : t.handoff_history ≡ s.handoff_history
  pub named : task.id ≡ id
  pub version : task.version ≡ 1
  pub about : entry.entity_id ≡ id

pub create_task-eq-ok :
    (s : Store) (input : CreateTask) (id : String) {t : Store}
    → create_task s input id ≡ ok t
    → TaskCreated s id t
unfolding create_task
create_task-eq-ok s input id {t} h =
    let (_, _, h1) = >>=-eq-ok (human_actor s input.actor) _ h in
    let (deal, _, h2) = >>=-eq-ok (get_deal s input.deal_id input.expected_deal_version) _ h1 in
    let (user, _, h3) = >>=-eq-ok (get_user s input.assigned_user_id) _ h2 in
    record {
      task = new_task input deal user id;
      entry = history id 1 none pending input.stamp;
      tasks = ground arith;
      task_history = ground arith;
      handoffs = ground arith;
      conversations = ground arith;
      handoff_history = ground arith;
      named = refl;
      version = refl;
      about = refl;
    }

pub record TaskUpdated (s : Store) (input : UpdateTask) (t : Store) : Type 0 where
  pub task : Task
  pub task' : Task
  pub entry : History TaskStatus
  pub found : lookup input.task_id s.tasks ≡ some task
  pub tasks : t.tasks ≡ put input.task_id task' s.tasks
  pub task_history : t.task_history ≡ s.task_history ++ entry ∷ []
  pub handoffs : t.handoffs ≡ s.handoffs
  pub conversations : t.conversations ≡ s.conversations
  pub handoff_history : t.handoff_history ≡ s.handoff_history
  pub unlinked : task.handoff_id ≡ none
  pub moved : transition input.action task.status ≡ some task'.status
  pub named : task'.id ≡ task.id
  pub version : task'.version ≡ task.version + 1
  pub about : entry.entity_id ≡ task.id

pub update_task-eq-ok :
    (s : Store) (input : UpdateTask) {t : Store}
    → update_task s input ≡ ok t
    → TaskUpdated s input t
unfolding update_task
update_task-eq-ok s input {t} h =
    let (_, _, h1) = >>=-eq-ok (human_actor s input.actor) _ h in
    let (task, got, h2) = >>=-eq-ok (get_task s input.task_id input.expected_task_version) _ h1 in
    let (free, h3) = guard-eq-ok (not (is_some task.handoff_id)) _ _ h2 in
    let (mine, h4) = guard-eq-ok (task.assigned_user_id == input.actor.id) _ _ h3 in
    let (to, moved, h5) =
      >>=-eq-ok (or_throw (transition input.action task.status) (conflict_error _)) _ h4 in
    record {
      task = task;
      task' = moved_task input task to;
      entry = history task.id (task.version + 1) (some task.status) to input.stamp;
      found = (get_task-eq-ok s input.task_id input.expected_task_version got).0;
      tasks = ground arith;
      task_history = ground arith;
      handoffs = ground arith;
      conversations = ground arith;
      handoff_history = ground arith;
      unlinked = ground arith;
      moved = or_throw-eq-ok (transition input.action task.status) _ moved;
      named = refl;
      version = refl;
      about = refl;
    }
