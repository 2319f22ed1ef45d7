-- ===== src/Work/Inversion.antt =====
-- What a successful lookup of the work repository and a successful `createHandoff` tell.
use crm_silmer.Base.{
  is_some, ok, >>=-eq-ok, any, lookup, put, values, ℕ, String, ◌≡◌, refl, true, false, none, some,
  [], ◌∷◌, ◌++◌, arith, eq_iff,
}
use crm_silmer.Work.{
  User, Deal, Conversation, TaskStatus, pending, Task, HandoffStatus, Handoff, History, Store,
  history, get_deal, get_conversation, get_task, get_handoff, get_user, assigned, assign,
}
use crm_silmer.Work.Handoffs.{
  CreateHandoff, is_active, fence_holds, collides, handed_over, new_handoff, new_handoff_task,
  check_create_handoff, create_handoff,
}

module _ (s : Store) (id : String) (version : ℕ) where
  pub get_deal-eq-ok :
      {d : Deal}
      → get_deal s id version ≡ ok d
      → (lookup id s.deals ≡ some d) × (d.version ≡ version)
  unfolding get_deal
  get_deal-eq-ok h = ground arith

  pub get_conversation-eq-ok :
      {c : Conversation}
      → get_conversation s id version ≡ ok c
      → (lookup id s.conversations ≡ some c) × (c.version ≡ version)
  unfolding get_conversation
  get_conversation-eq-ok h = ground arith

  pub get_task-eq-ok :
      {t : Task}
      → get_task s id version ≡ ok t
      → (lookup id s.tasks ≡ some t) × (t.version ≡ version)
  unfolding get_task
  get_task-eq-ok h = ground arith

  pub get_handoff-eq-ok :
      {h : Handoff}
      → get_handoff s id version ≡ ok h
      → (lookup id s.handoffs ≡ some h) × (h.version ≡ version)
  unfolding get_handoff
  get_handoff-eq-ok h = ground arith

pub record IsSeller (s : Store) (id : String) (u : User) : Type 0 where
  pub found : lookup id s.users ≡ some u
  pub enabled : is_some u.disabled_at ≡ false
  pub sells : u.function_name ≡ "Vendedor"

pub get_user-eq-ok : (s : Store) (id : String) {u : User} → get_user s id ≡ ok u → IsSeller s id u
unfolding get_user
get_user-eq-ok s id {u} h = ground (arith, eq_iff u.function_name "Vendedor")

pub record CreateChecks (s : Store) (input : CreateHandoff) (d : Deal) (c : Conversation) (u : User)
    : Type 0 where
  pub deal : lookup input.deal_id s.deals ≡ some d
  pub deal_version : d.version ≡ input.expected_deal_version
  pub conversation : lookup input.conversation_id s.conversations ≡ some c
  pub conversation_version : c.version ≡ input.expected_conversation_version
  pub user : get_user s input.assigned_user_id ≡ ok u
  pub deal_active : is_active d.status ≡ true
  pub ongoing : is_some c.terminal_at ≡ false
  pub contact : c.contact_id ≡ d.contact_id
  pub fence : fence_holds input.actor.kind c input.automation_epoch ≡ true
  pub free : any (collides d c) (values s.handoffs) ≡ false

pub check_create_handoff-eq-ok :
    (s : Store) (input : CreateHandoff) {d : Deal} {c : Conversation} {u : User}
    → check_create_handoff s input ≡ ok (d, c, u)
    → CreateChecks s input d c u
unfolding check_create_handoff
check_create_handoff-eq-ok s input {d} {c} {u} h = ground (
  arith,
  get_deal-eq-ok s input.deal_id input.expected_deal_version {d = d},
  get_conversation-eq-ok s input.conversation_id input.expected_conversation_version {c = c},
  eq_iff c.contact_id d.contact_id,
)

pub record HandoffCreated (s : Store) (input : CreateHandoff) (handoff_id task_id : String)
    (t : Store) : Type 0 where
  pub deal : Deal
  pub conversation : Conversation
  pub user : User
  pub handoff_entry : History HandoffStatus
  pub task_entry : History TaskStatus
  pub checks : CreateChecks s input deal conversation user
  pub handoffs :
      t.handoffs ≡ put handoff_id (new_handoff input deal conversation user handoff_id) s.handoffs
  pub tasks : t.tasks ≡ put task_id (new_handoff_task input deal user handoff_id task_id) s.tasks
  pub deals : t.deals ≡ put input.deal_id (assigned deal user input.stamp) s.deals
  pub conversations :
      t.conversations
      ≡ put input.conversation_id (handed_over conversation user input.stamp) s.conversations
  pub handoff_history : t.handoff_history ≡ s.handoff_history ++ handoff_entry ∷ []
  pub task_history : t.task_history ≡ s.task_history ++ task_entry ∷ []
  pub handoff_about : handoff_entry.entity_id ≡ handoff_id
  pub task_about : task_entry.entity_id ≡ task_id

pub create_handoff-eq-ok :
    (s : Store) (input : CreateHandoff) (handoff_id task_id : String) {t : Store}
    → create_handoff s input handoff_id task_id ≡ ok t
    → HandoffCreated s input handoff_id task_id t
unfolding create_handoff assign
create_handoff-eq-ok s input handoff_id task_id h =
    let ((d, c, u), checked, done) = >>=-eq-ok (check_create_handoff s input) _ h in
    record {
      deal = d;
      conversation = c;
      user = u;
      handoff_entry = history handoff_id 1 none pending input.stamp;
      task_entry = history task_id 1 none TaskStatus.pending input.stamp;
      checks = check_create_handoff-eq-ok s input checked;
      handoffs = ground arith;
      tasks = ground arith;
      deals = ground arith;
      conversations = ground arith;
      handoff_history = ground arith;
      task_history = ground arith;
      handoff_about = refl;
      task_about = refl;
    }
