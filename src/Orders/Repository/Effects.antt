-- ===== src/Orders/Repository/Effects.antt =====
-- What each command of the order repository does.
-- A change that `#write` may be given keeps the identity and the version.
use crm_silmer.Base.{
  text_eq, nat_eq, ◌==◌, is_some, is_text, Bool-cases, Option-cases, Result, ok, err, or_throw,
  >>=-eq-ok, guard-eq-ok, or_throw-eq-ok, lookup, ◌+◌, String, ◌≡◌, refl, inl, inr, Bool, not, ◌||◌,
  none, some, arith,
}
use crm_silmer.Orders.Repository.{
  EventType, created, receipt_attached, ficha_first_printed, section_saved, briefing_projected,
  milestones_saved, Repo, event_of, CreatePending, replay_of, pending_order, create_fresh,
  create_pending,
}
use crm_silmer.Orders.Repository.Writes.{
  WriteOptions, target_fits, write, change_ficha, change_status, change_milestones,
  status_event_type, save_section, project_briefing, save_status, save_milestones,
}
use crm_silmer.Orders.Repository.Stores.{
  CreateStoreOrder, store_order, create_store_order, AttachReceipt, Outcome, attached,
  attach_store_receipt, FirstPrint, printed, record_first_print,
}
use crm_silmer.Orders.{StoreFicha, OrderError, order_not_found, Order, is_loja}
use crm_silmer.Orders.Repository.Commands.{
  Command, creates_pending, creates_store_order, attaches_receipt, prints_first, saves_section,
  projects_briefing, saves_status, saves_milestones, repo_of, outcome_of, execute, SameIdentity,
  Effect, idle, adds, changes, new_id,
}

pub record Keeps (o o' : Order) : Type 0 where
  pub same : SameIdentity o o'
  pub version : o'.version ≡ o.version

write-Effect :
    (r : Repo) (order_id : String) (options : WriteOptions) (event_type : EventType)
    (change : Order → Result OrderError Order) {t : Repo} {o : Order}
    → ((c c' : Order) → change c ≡ ok c' → Keeps c c')
    → write r order_id options event_type change ≡ ok (t, o)
    → Effect none r t
unfolding write
write-Effect r order_id options event_type change keeps h =
    let (c, found, h1) = >>=-eq-ok (or_throw (lookup order_id r.orders) order_not_found) _ h in
    let (_, h2) = guard-eq-ok (not (is_loja c.origin)) _ _ h1 in
    let (_, h3) = guard-eq-ok (target_fits options.agent_target event_type order_id) _ _ h2 in
    let (_, h4) = guard-eq-ok (c.version == options.expected_version) _ _ h3 in
    let (c', changed, done) = >>=-eq-ok (change c) _ h4 in
    let k = keeps c c' changed in
    let next : Order = record c' { version = c.version + 1 } in
    changes order_id order_id c next (event_of next event_type options.correlation_id)
      (or_throw-eq-ok (lookup order_id r.orders) _ found) (inl refl) (ground arith) (ground arith)
      (ground arith) refl k.same.id
      (record {
        id = k.same.id;
        number_sequence = k.same.number_sequence;
        gateway_payment = k.same.gateway_payment;
        conversation_id = k.same.conversation_id;
        origin = k.same.origin;
      })

change_ficha-Keeps : (order c c' : Order) → change_ficha order c ≡ ok c' → Keeps c c'
unfolding change_ficha
change_ficha-Keeps order c c' h = ground arith

change_status-Keeps : (order c c' : Order) → change_status order c ≡ ok c' → Keeps c c'
unfolding change_status
change_status-Keeps order c c' h = ground arith

change_milestones-Keeps : (order c c' : Order) → change_milestones order c ≡ ok c' → Keeps c c'
unfolding change_milestones
change_milestones-Keeps order c c' h = ground arith

fresh_Effect :
    (r : Repo) (input : CreatePending) {t : Repo} {o : Order}
    → create_fresh r input ≡ ok (t, o)
    → Effect (some input.id) r t
fresh_Effect r input h =
    let made = pending_order input (r.sequence + 1) in
    adds made (event_of made created input.correlation_id) (ground arith) (ground arith)
      (ground arith) refl refl refl tt refl

attached-SameIdentity :
    (o : Order) (store : StoreFicha) (input : AttachReceipt)
    → SameIdentity o (attached o store input)
attached-SameIdentity o store input = record {
  id = refl;
  number_sequence = refl;
  gateway_payment = refl;
  conversation_id = refl;
  origin = refl;
}

printed-SameIdentity : (o : Order) (input : FirstPrint) → SameIdentity o (printed o input)
printed-SameIdentity o input = record {
  id = refl;
  number_sequence = refl;
  gateway_payment = refl;
  conversation_id = refl;
  origin = refl;
}

create_pending-Effect :
    (r : Repo) (input : CreatePending) {t : Repo} {o : Order}
    → create_pending r input ≡ ok (t, o)
    → Effect (some input.id) r t
unfolding create_pending
create_pending-Effect r input {o} h = elim (Option-cases (replay_of r input.manual_create_key)) [
  | inl fresh ↦ fresh_Effect r input {o = o} (ground arith)
  | inr (replay, found) ↦ idle (ground arith)
]

create_store_order-Effect :
    (r : Repo) (input : CreateStoreOrder) {t : Repo} {o : Order}
    → create_store_order r input ≡ ok (t, o)
    → Effect (some input.order.id) r t
unfolding create_store_order
create_store_order-Effect r input h =
    let saved = store_order input (r.sequence + 1) in
    adds saved (event_of saved created input.audit.correlation_id) (ground arith) (ground arith)
      (ground arith) refl refl refl (ground arith) refl

attach_store_receipt-Effect :
    (r : Repo) (input : AttachReceipt) {t : Repo} {o : Order} {b : Bool}
    → attach_store_receipt r input ≡ ok (t, o, b)
    → Effect none r t
unfolding attach_store_receipt
attach_store_receipt-Effect r input h =
    let (c, got, h1) = >>=-eq-ok (or_throw (lookup input.order_id r.orders) order_not_found) _ h in
    let (store, kept, h2) = >>=-eq-ok (or_throw c.ficha.store order_not_found) _ h1 in
    let found = or_throw-eq-ok (lookup input.order_id r.orders) _ got in
    elim (Bool-cases (is_text store.comprovante_url input.receipt_url)) [
      | inl same ↦ idle (ground arith)
      | inr other ↦
          let next = attached c store input in
          changes c.id input.order_id c next
            (event_of next receipt_attached input.audit.correlation_id) found (inr refl)
            (ground arith) (ground arith) (ground arith) refl refl
            (attached-SameIdentity c store input)
    ]

record_first_print-Effect :
    (r : Repo) (input : FirstPrint) {t : Repo} {o : Order} {b : Bool}
    → record_first_print r input ≡ ok (t, o, b)
    → Effect none r t
unfolding record_first_print
record_first_print-Effect r input h =
    let (c, got, h1) = >>=-eq-ok (or_throw (lookup input.order_id r.orders) order_not_found) _ h in
    let found = or_throw-eq-ok (lookup input.order_id r.orders) _ got in
    elim (Bool-cases (not (is_loja c.origin) || is_some c.ficha_first_printed_at)) [
      | inl done ↦ idle (ground arith)
      | inr first ↦
          let next = printed c input in
          changes c.id input.order_id c next
            (record (event_of next ficha_first_printed input.correlation_id) {
              occurred_at = input.now;
            })
            found (inr refl) (ground arith) (ground arith) (ground arith) refl refl
            (printed-SameIdentity c input)
    ]

repo_of-eq-ok :
    {A : Type 0} (m : Result OrderError (Repo × A)) {t : Repo}
    → repo_of m ≡ ok t
    → (a : A) × (m ≡ ok (t, a))
repo_of-eq-ok (ok (r, a)) h = (a, ground arith)
repo_of-eq-ok (err e) h = cc

outcome_of-eq-ok :
    (m : Result OrderError Outcome) {t : Repo}
    → outcome_of m ≡ ok t
    → (o : Order) × (b : Bool) × (m ≡ ok (t, o, b))
outcome_of-eq-ok (ok (r, o, b)) h = (o, b, ground arith)
outcome_of-eq-ok (err e) h = cc

-- A successful command leaves everything, adds one order, or changes one, with its event.
pub execute-Effect :
    (r : Repo) (c : Command) {t : Repo} → execute r c ≡ ok t → Effect (new_id c) r t
unfolding execute save_section project_briefing save_status save_milestones
execute-Effect r (creates_pending input) h =
    create_pending-Effect r input (repo_of-eq-ok (create_pending r input) h).1
execute-Effect r (creates_store_order input) h =
    create_store_order-Effect r input (repo_of-eq-ok (create_store_order r input) h).1
execute-Effect r (attaches_receipt input) h =
    attach_store_receipt-Effect r input (outcome_of-eq-ok (attach_store_receipt r input) h).2
execute-Effect r (prints_first input) h =
    record_first_print-Effect r input (outcome_of-eq-ok (record_first_print r input) h).2
execute-Effect r (saves_section order options) h =
    write-Effect r order.id options section_saved (change_ficha order) (change_ficha-Keeps order)
      (repo_of-eq-ok (save_section r order options) h).1
execute-Effect r (projects_briefing order options) h =
    write-Effect r order.id options briefing_projected (change_ficha order)
      (change_ficha-Keeps order) (repo_of-eq-ok (project_briefing r order options) h).1
execute-Effect r (saves_status order options) h =
    write-Effect r order.id options (status_event_type order.status) (change_status order)
      (change_status-Keeps order) (repo_of-eq-ok (save_status r order options) h).1
execute-Effect r (saves_milestones order options) h =
    write-Effect r order.id options milestones_saved (change_milestones order)
      (change_milestones-Keeps order) (repo_of-eq-ok (save_milestones r order options) h).1
