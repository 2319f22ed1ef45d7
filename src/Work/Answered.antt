-- ===== src/Work/Answered.antt =====
-- What a successful answer to a handoff, an update or a claim, tells.
use crm_silmer.Base.{
  is_text, ok, >>=-eq-ok, find, lookup, put, values, ◌+◌, ◌≡◌, refl, true, false, none, some, [],
  ◌∷◌, ◌++◌, arith, eq_iff,
}
use crm_silmer.Work.{
  User, Deal, Conversation, Task, HandoffStatus, accepted, Handoff, History, Store, Stamp, history,
  get_user, assign,
}
use crm_silmer.Work.Handoffs.{is_human_led, is_resolved}
use crm_silmer.Work.Answers.{
  HandoffAction, accept, resolve, transfer, UpdateHandoff, Change, is_pending, act,
  check_update_handoff, record_change, update_handoff, ClaimHandoff, check_claim_handoff,
  claim_handoff,
}
use crm_silmer.Work.Inversion.{get_deal-eq-ok, get_conversation-eq-ok, get_handoff-eq-ok}

pub record UpdateChecks (s : Store) (input : UpdateHandoff) (h : Handoff) (d : Deal)
    (c : Conversation) (t : Task) : Type 0 where
  pub handoff : lookup input.handoff_id s.handoffs ≡ some h
  pub handoff_version : h.version ≡ input.expected_handoff_version
  pub deal : lookup h.deal_id s.deals ≡ some d
  pub conversation : lookup h.conversation_id s.conversations ≡ some c
  pub task : find (λ (t : Task). is_text t.handoff_id h.id) (values s.tasks) ≡ some t
  pub task_version : t.version ≡ input.expected_task_version
  pub assignee : is_text h.assigned_user_id input.actor.id ≡ true
  pub led : is_human_led c.automation_state ≡ true

pub check_update_handoff-eq-ok :
    (s : Store) (input : UpdateHandoff) {h : Handoff} {d : Deal} {c : Conversation} {t : Task}
    → check_update_handoff s input ≡ ok (h, d, c, t)
    → UpdateChecks s input h d c t
unfolding check_update_handoff
check_update_handoff-eq-ok s input {h} {d} {c} {t} e = ground (
  arith,
  get_handoff-eq-ok s input.handoff_id input.expected_handoff_version {h = h},
  get_deal-eq-ok s h.deal_id input.expected_deal_version {d = d},
  get_conversation-eq-ok s h.conversation_id input.expected_conversation_version {c = c},
)

-- What an action may do to a handoff and to its task.
pub record Acted (s : Store) (h : Handoff) (t : Task) (c : Change) : Type 0 where
  pub handoffs : c.store.handoffs ≡ s.handoffs
  pub tasks : c.store.tasks ≡ s.tasks
  pub handoff_history : c.store.handoff_history ≡ s.handoff_history
  pub task_history : c.store.task_history ≡ s.task_history
  pub handoff_id : c.handoff.id ≡ h.id
  pub handoff_version : c.handoff.version ≡ h.version
  pub task_version : c.task.version ≡ t.version
  pub deal_id : c.handoff.deal_id ≡ h.deal_id
  pub conversation_id : c.handoff.conversation_id ≡ h.conversation_id
  pub was_open : is_resolved h.status ≡ false
  pub task_id : c.task.id ≡ t.id
  pub task_handoff_id : c.task.handoff_id ≡ t.handoff_id

pub act-eq-ok :
    (s : Store) (input : Stamp) (a : HandoffAction) (h : Handoff) (d : Deal) (c : Conversation)
    (t : Task) {change : Change}
    → act s input a h d c t ≡ ok change
    → Acted s h t change
unfolding act assign
act-eq-ok s input accept h d c t e = ground arith
act-eq-ok s input (transfer id) h d c t e = ground arith
act-eq-ok s input resolve h d c t e = ground arith

pub record Updated (s : Store) (input : UpdateHandoff) (t : Store) : Type 0 where
  pub handoff : Handoff
  pub deal : Deal
  pub conversation : Conversation
  pub task : Task
  pub change : Change
  pub checks : UpdateChecks s input handoff deal conversation task
  pub acting : act s input.stamp input.action handoff deal conversation task ≡ ok change
  pub acted : Acted s handoff task change
  pub result : t ≡ record_change input handoff task change

pub update_handoff-eq-ok :
    (s : Store) (input : UpdateHandoff) {t : Store}
    → update_handoff s input ≡ ok t
    → Updated s input t
unfolding update_handoff
update_handoff-eq-ok s input h =
    let ((g, d, c, k), checked, rest) = >>=-eq-ok (check_update_handoff s input) _ h in
    let (change, acting, done) = >>=-eq-ok (act s input.stamp input.action g d c k) _ rest in
    record {
      handoff = g;
      deal = d;
      conversation = c;
      task = k;
      change = change;
      checks = check_update_handoff-eq-ok s input checked;
      acting = acting;
      acted = act-eq-ok s input.stamp input.action g d c k acting;
      result = ground arith;
    }

pub record Claimed (s : Store) (input : ClaimHandoff) (t : Store) : Type 0 where
  pub handoff : Handoff
  pub user : User
  pub conversation : Conversation
  pub found : lookup input.handoff_id s.handoffs ≡ some handoff
  pub version : handoff.version ≡ input.expected_handoff_version
  pub seller : get_user s input.actor.id ≡ ok user
  pub talk : lookup handoff.conversation_id s.conversations ≡ some conversation
  pub was_pending : is_pending handoff.status ≡ true
  pub unassigned : handoff.assigned_user_id ≡ none
  pub led : is_human_led conversation.automation_state ≡ true
  pub role : user.function_name ≡ handoff.target_role
  pub handoffs :
      t.handoffs
      ≡ put input.handoff_id
          (record handoff {
            assigned_user_id = some user.id;
            status = accepted;
            updated_at = input.occurred_at;
            version = handoff.version + 1;
          })
          s.handoffs
  pub tasks : t.tasks ≡ s.tasks
  pub entry : History HandoffStatus
  pub handoff_history : t.handoff_history ≡ s.handoff_history ++ entry ∷ []
  pub task_history : t.task_history ≡ s.task_history
  pub about : entry.entity_id ≡ handoff.id
  pub conversations :
      t.conversations
      ≡ put handoff.conversation_id
          (record conversation {
            assigned_user_id = some user.id;
            state = "em_atendimento";
            updated_at = input.occurred_at;
            version = conversation.version + 1;
          })
          s.conversations

pub claim_handoff-eq-ok :
    (s : Store) (input : ClaimHandoff) {t : Store}
    → claim_handoff s input ≡ ok t
    → Claimed s input t
unfolding claim_handoff check_claim_handoff
claim_handoff-eq-ok s input {t} h =
    let ((g, u, c), checked, done) = >>=-eq-ok (check_claim_handoff s input) _ h in
    record {
      handoff = g;
      user = u;
      conversation = c;
      found =
          ground
            (arith, get_handoff-eq-ok s input.handoff_id input.expected_handoff_version {h = g});
      version =
          ground
            (arith, get_handoff-eq-ok s input.handoff_id input.expected_handoff_version {h = g});
      seller = ground arith;
      talk = ground arith;
      was_pending = ground arith;
      unassigned = ground arith;
      led = ground arith;
      role = ground (arith, eq_iff u.function_name g.target_role);
      handoffs = ground arith;
      tasks = ground arith;
      entry = history g.id (g.version + 1) (some g.status) accepted input.stamp;
      handoff_history = ground arith;
      task_history = ground arith;
      about = refl;
      conversations = ground arith;
    }
