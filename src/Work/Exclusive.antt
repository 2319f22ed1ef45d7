-- ===== src/Work/Exclusive.antt =====
-- The unresolved handoffs of a deal and of a conversation.
use crm_silmer.Base.{
  ok, after, after-keeps, any, Table, lookup, put, values, lookup-put, any-false-at, String, ◌≡◌,
  refl, ◌⊎◌, false, some, List, [], ◌∷◌, arith, eq_iff,
}
use crm_silmer.Work.{User, Deal, Conversation, Handoff, Store}
use crm_silmer.Work.Handoffs.{CreateHandoff, is_resolved, collides, new_handoff, create_handoff}
use crm_silmer.Work.Answers.{UpdateHandoff, update_handoff, ClaimHandoff, claim_handoff}
use crm_silmer.Work.Commands.{
  Command, assigns, creates_task, updates_task, creates_handoff, updates_handoff, claims_handoff,
  execute, run,
}
use crm_silmer.Work.Inversion.{create_handoff-eq-ok}
use crm_silmer.Work.Answered.{update_handoff-eq-ok, claim_handoff-eq-ok}
use crm_silmer.Work.Frames.{assign_deal-handoffs, create_task-eq-ok, update_task-eq-ok}

abbrev pub IsOpen : Handoff → Type 0
IsOpen h = is_resolved h.status ≡ false

abbrev pub Shares : Handoff → Handoff → Type 0
Shares h h' = (h.deal_id ≡ h'.deal_id) ⊎ (h.conversation_id ≡ h'.conversation_id)

pub record IsExclusive (t : Table Handoff) : Type 0 where
  pub one :
      (j k : String) (h h' : Handoff)
      → lookup j t ≡ some h
      → lookup k t ≡ some h'
      → IsOpen h
      → IsOpen h'
      → Shares h h'
      → j ≡ k

-- A change that keeps what a handoff is about, and reopens none.
pub put-IsExclusive :
    (t : Table Handoff) (k : String) (h h' : Handoff)
    → IsExclusive t
    → lookup k t ≡ some h
    → h'.deal_id ≡ h.deal_id
    → h'.conversation_id ≡ h.conversation_id
    → (IsOpen h' → IsOpen h)
    → IsExclusive (put k h' t)
put-IsExclusive t k h h' e found deal conversation opens = record {
  one = λ i j g g' li lj o o' s. ground (
    arith,
    lookup-put k i h' t,
    lookup-put k j h' t,
    eq_iff k i,
    eq_iff k j,
    e.one k j h g',
    e.one i k g h,
    e.one i j g g',
  );
}

-- A new handoff that no unresolved one collides with.
pub put-IsExclusive_new :
    (t : Table Handoff) (id : String) (input : CreateHandoff) (d : Deal) (c : Conversation)
    (u : User)
    → IsExclusive t
    → any (collides d c) (values t) ≡ false
    → IsExclusive (put id (new_handoff input d c u id) t)
put-IsExclusive_new t id input d c u e free = record {
  one = λ i j g g' li lj o o' s. ground (
    arith,
    lookup-put id i (new_handoff input d c u id) t,
    lookup-put id j (new_handoff input d c u id) t,
    eq_iff id i,
    eq_iff id j,
    eq_iff g.deal_id d.id,
    eq_iff g'.deal_id d.id,
    eq_iff g.conversation_id c.id,
    eq_iff g'.conversation_id c.id,
    any-false-at (collides d c) t i {v = g} free,
    any-false-at (collides d c) t j {v = g'} free,
    e.one i j g g',
  );
}

create_handoff-IsExclusive :
    (s : Store) (input : CreateHandoff) (handoff_id task_id : String) {t : Store}
    → create_handoff s input handoff_id task_id ≡ ok t
    → IsExclusive s.handoffs
    → IsExclusive t.handoffs
create_handoff-IsExclusive s input handoff_id task_id done e =
    let w = create_handoff-eq-ok s input handoff_id task_id done in
    rw w.handoffs
      (put-IsExclusive_new s.handoffs handoff_id input w.deal w.conversation w.user e w.checks.free)

update_handoff-IsExclusive :
    (s : Store) (input : UpdateHandoff) {t : Store}
    → update_handoff s input ≡ ok t
    → IsExclusive s.handoffs
    → IsExclusive t.handoffs
update_handoff-IsExclusive s input {t} done e =
    let w = update_handoff-eq-ok s input done in
    rw (w.result, w.acted.handoffs)
      (put-IsExclusive s.handoffs input.handoff_id w.handoff _ e w.checks.handoff w.acted.deal_id
        w.acted.conversation_id (λ _. w.acted.was_open))

claim_handoff-IsExclusive :
    (s : Store) (input : ClaimHandoff) {t : Store}
    → claim_handoff s input ≡ ok t
    → IsExclusive s.handoffs
    → IsExclusive t.handoffs
claim_handoff-IsExclusive s input {t} done e =
    let w = claim_handoff-eq-ok s input done in
    rw w.handoffs (
      put-IsExclusive s.handoffs input.handoff_id w.handoff _ e w.found refl refl
        (λ _. ground (arith, w.was_pending)))

-- No command makes a second unresolved handoff for a deal or for a conversation.
pub execute-IsExclusive :
    (s : Store) (c : Command) {t : Store}
    → execute s c ≡ ok t
    → IsExclusive s.handoffs
    → IsExclusive t.handoffs
unfolding execute
execute-IsExclusive s (assigns input deal_id version user_id) done e =
    rw (assign_deal-handoffs s input deal_id version user_id done).handoffs e
execute-IsExclusive s (creates_task input id) done e =
    rw (create_task-eq-ok s input id done).handoffs e
execute-IsExclusive s (updates_task input) done e = rw (update_task-eq-ok s input done).handoffs e
execute-IsExclusive s (creates_handoff input handoff_id task_id) done e =
    create_handoff-IsExclusive s input handoff_id task_id done e
execute-IsExclusive s (updates_handoff input) done e = update_handoff-IsExclusive s input done e
execute-IsExclusive s (claims_handoff input) done e = claim_handoff-IsExclusive s input done e

-- From a store with at most one unresolved handoff for each deal and each conversation, any
-- sequence of commands, accepted or refused, leads to such a store.
pub run-IsExclusive :
    (s : Store) (cs : List Command) → IsExclusive s.handoffs → IsExclusive (run s cs).handoffs
unfolding run
run-IsExclusive s [] e = e
run-IsExclusive s (c ∷ cs) e = run-IsExclusive (after s (execute s c)) cs (
    after-keeps (λ t. IsExclusive t.handoffs) s (execute s c)
      (λ t done. execute-IsExclusive s c done e) e)
