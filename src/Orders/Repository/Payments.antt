-- ===== src/Orders/Repository/Payments.antt =====
-- The payments of the gateway and the numbers of the orders.
use crm_silmer.Base.{
  after, after-keeps, any, Table, lookup, put, values, lookup-put, any-false-at, ◌+◌, ◌≤◌, String,
  ◌≡◌, false, Option, some, List, [], ◌∷◌, arith, eq_iff,
}
use crm_silmer.Orders.Repository.{Repo}
use crm_silmer.Orders.Repository.Stores.{paid_by}
use crm_silmer.Orders.Repository.Commands.{Command, execute, run, Effect, idle, adds, changes}
use crm_silmer.Orders.{GatewayPayment, Order}
use crm_silmer.Orders.Repository.Effects.{execute-Effect}

pub record HasDistinctPayments (t : Table Order) : Type 0 where
  pub one :
      (j k : String) (o o' : Order) (p p' : GatewayPayment)
      → lookup j t ≡ some o
      → lookup k t ≡ some o'
      → o.gateway_payment ≡ some p
      → o'.gateway_payment ≡ some p'
      → p.transaction_nsu ≡ p'.transaction_nsu
      → j ≡ k

pub record IsSound (r : Repo) : Type 0 where
  pub keyed : (k : String) (o : Order) → lookup k r.orders ≡ some o → o.id ≡ k
  pub payments : HasDistinctPayments r.orders
  pub numbered :
      (k : String) (o : Order) → lookup k r.orders ≡ some o → o.number_sequence ≤ r.sequence
  pub distinct :
      (j k : String) (o o' : Order)
      → lookup j r.orders ≡ some o
      → lookup k r.orders ≡ some o'
      → o.number_sequence ≡ o'.number_sequence
      → j ≡ k

put-payments_new :
    (t : Table Order) (o : Order)
    → HasDistinctPayments t
    → ((q : GatewayPayment)
        → o.gateway_payment ≡ some q
        → any (paid_by q.transaction_nsu) (values t) ≡ false)
    → HasDistinctPayments (put o.id o t)
put-payments_new t o d free = record {
  one = λ i j g g' p p' li lj e e' same. ground (
    arith,
    lookup-put o.id i o t,
    lookup-put o.id j o t,
    eq_iff o.id i,
    eq_iff o.id j,
    eq_iff p.transaction_nsu p'.transaction_nsu,
    eq_iff p'.transaction_nsu p.transaction_nsu,
    free p,
    free p',
    any-false-at (paid_by p.transaction_nsu) t j {v = g'},
    any-false-at (paid_by p'.transaction_nsu) t i {v = g},
    d.one i j g g' p p',
  );
}

put-payments_same :
    (t : Table Order) (k : String) (o o' : Order)
    → HasDistinctPayments t
    → lookup k t ≡ some o
    → o'.gateway_payment ≡ o.gateway_payment
    → HasDistinctPayments (put k o' t)
put-payments_same t k o o' d found same = record {
  one = λ i j g g' p p' li lj e e' eq. ground (
    arith,
    lookup-put k i o' t,
    lookup-put k j o' t,
    eq_iff k i,
    eq_iff k j,
    d.one i j g g' p p',
    d.one k j o g' p p',
    d.one i k g o p p',
  );
}

numbered_new :
    (r : Repo) (o : Order)
    → IsSound r
    → o.number_sequence ≡ r.sequence + 1
    → (i j : String) (g g' : Order) → lookup i (put o.id o r.orders) ≡ some g
    → lookup j (put o.id o r.orders) ≡ some g'
    → g.number_sequence ≡ g'.number_sequence
    → i ≡ j
numbered_new r o s n i j g g' li lj same = ground (
  arith,
  lookup-put o.id i o r.orders,
  lookup-put o.id j o r.orders,
  eq_iff o.id i,
  eq_iff o.id j,
  s.numbered i g,
  s.numbered j g',
  s.distinct i j g g',
)

Effect-IsSound : {new : Option String} {r t : Repo} → Effect new r t → IsSound r → IsSound t
Effect-IsSound (idle same) s = rw same s
Effect-IsSound {r} {t} (adds o e orders events up version number mine unpaid id) s = record {
  keyed = λ k g h. ground (arith, lookup-put o.id k o r.orders, eq_iff o.id k, s.keyed k g, orders);
  payments = rw orders (put-payments_new r.orders o s.payments (λ q p. ground (arith, unpaid)));
  numbered =
      λ k g h. ground (arith, lookup-put o.id k o r.orders, s.numbered k g, orders, up, number);
  distinct = rw orders (numbered_new r o s number);
}
Effect-IsSound {r} {t} (changes k id o o' e found at orders events up version mine same) s =
    let own = s.keyed id o found in
    let here : k ≡ id = ground arith in
    let found' : lookup k r.orders ≡ some o = rw here found in
    record {
      keyed = λ j g h.
          ground (arith, lookup-put k j o' r.orders, eq_iff k j, s.keyed j g, orders, same.id);
      payments =
          rw orders (put-payments_same r.orders k o o' s.payments found' same.gateway_payment);
      numbered = λ j g h. ground (
        arith,
        lookup-put k j o' r.orders,
        s.numbered j g,
        s.numbered id o,
        orders,
        up,
        same.number_sequence,
      );
      distinct = λ i j g g' li lj eq. ground (
        arith,
        lookup-put k i o' r.orders,
        lookup-put k j o' r.orders,
        eq_iff k i,
        eq_iff k j,
        orders,
        same.number_sequence,
        s.distinct i j g g',
        s.distinct k j o g',
        s.distinct i k g o,
      );
    }

-- From a sound repository, no sequence of commands gives two orders one number or one payment of
-- the gateway, and every number stays below the next one.
pub run-IsSound : (r : Repo) (cs : List Command) → IsSound r → IsSound (run r cs)
unfolding run
run-IsSound r [] s = s
run-IsSound r (c ∷ cs) s =
    run-IsSound (after r (execute r c)) cs
      (after-keeps IsSound r (execute r c) (λ t h. Effect-IsSound (execute-Effect r c h) s) s)
