-- ===== src/Orders/Repository/Pending.antt =====
-- The pending orders of one conversation.
use crm_silmer.Base.{
  ◌==◌, nat_eq, text_eq, is_text, Option-cases, ok, guard-eq-ok, any, is_some-find, Table, lookup,
  put, values, lookup-put, any-false-at, ◌+◌, String, ◌≡◌, refl, sym, ◌≢◌, inl, inr, false, not,
  ◌&&◌, Option, none, some, arith, eq_iff,
}
use crm_silmer.Orders.Repository.{
  reopened, Repo, CreatePending, pending_for, replay_of, busy, pending_order, create_fresh,
  create_pending,
}
use crm_silmer.Orders.Repository.Writes.{WriteOptions, written, save_status}
use crm_silmer.Orders.{pendente, confirmado, atendimento, Order, is_pendente}

-- No two orders of one conversation, whose id is not empty, are pending.
pub record HasOnePending (t : Table Order) : Type 0 where
  pub one :
      (j k : String) (o o' : Order) (conversation_id : String)
      → lookup j t ≡ some o
      → lookup k t ≡ some o'
      → o.conversation_id ≡ some conversation_id
      → o'.conversation_id ≡ some conversation_id
      → o.status ≡ pendente
      → o'.status ≡ pendente
      → (conversation_id == "") ≡ false
      → j ≡ k

put_one :
    (t : Table Order) (o : Order) (conversation_id : String)
    → o.conversation_id ≡ some conversation_id
    → ((conversation_id == "") ≡ false
        → any
            (λ (g : Order). is_text g.conversation_id conversation_id && is_pendente g.status)
            (values t)
          ≡ false)
    → HasOnePending t
    → HasOnePending (put o.id o t)
put_one t o c mine free h = record {
  one = λ i j g g' d li lj e e' p p' filled. ground (
    arith,
    lookup-put o.id i o t,
    lookup-put o.id j o t,
    eq_iff o.id i,
    eq_iff o.id j,
    eq_iff d c,
    eq_iff c c,
    any-false-at (λ (g : Order). is_text g.conversation_id c && is_pendente g.status) t i {v = g},
    any-false-at (λ (g : Order). is_text g.conversation_id c && is_pendente g.status) t j {v = g'},
    free,
    h.one i j g g' d,
  );
}

put_one_manual :
    (t : Table Order) (o : Order)
    → o.conversation_id ≡ none
    → HasOnePending t
    → HasOnePending (put o.id o t)
put_one_manual t o mine h = record {
  one = λ i j g g' d li lj e e' p p' filled.
      ground (arith, lookup-put o.id i o t, lookup-put o.id j o t, h.one i j g g' d);
}

created_one :
    (r : Repo) (input : CreatePending) (conversation : Option String) {t : Repo} {made : Order}
    → conversation ≡ input.conversation_id
    → create_fresh r input ≡ ok (t, made)
    → HasOnePending r.orders
    → HasOnePending t.orders
unfolding pending_for
created_one r input none {t} {made} same h one =
    let o = pending_order input (r.sequence + 1) in
    let e : t.orders ≡ put o.id o r.orders = ground arith in
    rw e (put_one_manual r.orders o (sym same) one)
created_one r input (some c) {t} {made} same h one =
    let o = pending_order input (r.sequence + 1) in
    let (free, done) = guard-eq-ok (not (busy r input.conversation_id)) _ _ h in
    let e : t.orders ≡ put o.id o r.orders = ground arith in
    let busy? =
      is_some-find (λ (g : Order). is_text g.conversation_id c && is_pendente g.status)
        (values r.orders) in
    rw e (
      put_one r.orders o c (sym same) (λ filled. ground (arith, rw (← same) at free, busy?, filled))
        one)

-- If no conversation has two pending orders, opening an order keeps that so.
pub create_pending-HasOnePending :
    (r : Repo) (input : CreatePending) {t : Repo} {made : Order}
    → create_pending r input ≡ ok (t, made)
    → HasOnePending r.orders
    → HasOnePending t.orders
unfolding create_pending
create_pending-HasOnePending r input {t} {made} h one =
    elim (Option-cases (replay_of r input.manual_create_key)) [
      | inl fresh ↦
          created_one r input input.conversation_id {t = t} {made = made} refl (ground arith) one
      | inr (replay, found) ↦ let e : r ≡ t = ground arith in rw (← e) one
    ]

-- What `saveStatus` stores.
abbrev restated : Order → Order → Order
restated order o = record o {
  confirmed_at = order.confirmed_at;
  confirmed_by = order.confirmed_by;
  ficha = order.ficha;
  final_amount_cents = order.final_amount_cents;
  missing_fields = order.missing_fields;
  order_date = order.order_date;
  payment_condition = order.payment_condition;
  reopened_at = order.reopened_at;
  reopened_by = order.reopened_by;
  status = order.status;
  updated_at = order.updated_at;
  version = o.version + 1;
}

-- An order of the counter is confirmed, and another order of its conversation, which has a name, is
-- pending: then reopening the first, at its version and without an agent's target, is accepted, and
-- the conversation is left with two pending orders.
pub save_status_doubles_pending :
    (r : Repo) (j : String) (p o order : Order) (conversation_id : String) (options : WriteOptions)
    → lookup j r.orders ≡ some p
    → lookup order.id r.orders ≡ some o
    → j ≢ order.id
    → p.status ≡ pendente
    → p.conversation_id ≡ some conversation_id
    → o.conversation_id ≡ some conversation_id
    → (conversation_id == "") ≡ false
    → o.status ≡ confirmado
    → o.origin ≡ atendimento
    → order.status ≡ pendente
    → options.expected_version ≡ o.version
    → options.agent_target ≡ none
    → (t : Repo) × (next : Order) × (save_status r order options ≡ ok (t, next))
      × (¬ HasOnePending t.orders)
unfolding save_status
save_status_doubles_pending r j p o order c options lp lo apart sp cp co filled so origin pending
      version no_target =
    let next = restated order o in
    let t = written r order.id reopened options.correlation_id next in
    (
      t,
      next,
      ground (arith, eq_iff order.id order.id),
      λ h.
          let here : lookup order.id t.orders ≡ some next =
            ground (arith, lookup-put order.id order.id next r.orders, eq_iff order.id order.id) in
          let there : lookup j t.orders ≡ some p =
            ground (arith, lookup-put order.id j next r.orders, eq_iff order.id j) in
          apart (h.one j order.id p next c there here cp co sp pending filled),
    )
