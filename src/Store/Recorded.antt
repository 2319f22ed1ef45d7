-- ===== src/Store/Recorded.antt =====
-- What a call that created an order left.
use crm_silmer.Orders.{
  type_error, order_status_conflict, version_conflict, order_pending_exists, idempotency_key_reused,
  order_locked, subject_target_invalid, order_not_found, store_order_duplicate,
  store_order_conflict, invalid_amount, order_not_confirmable, invalid_date,
}
use crm_silmer.Base.{
  Result, ok, err, >>=-eq-ok, ok-injective, guard-eq-ok, String, ◌≡◌, refl, sym, ap, subst, true,
  false, Option, none, some, arith,
}
use crm_silmer.Orders.{OrderError, Order}
use crm_silmer.Orders.Repository.{Repo}
use crm_silmer.Orders.Repository.Stores.{create_store_order, attach_store_receipt}
use crm_silmer.Orders.Repository.Queries.{find_store_order}
use crm_silmer.Store.{StoreError, repository_error, Checkout, Match, match_store_catalog}
use crm_silmer.Store.Service.{
  Setup, Call, Recorded, same_order, stored_receipt, lift, attach, reconcile_receipt, reconcile,
  created_or_raced, creation, reconcile_or_create, record_checkout,
}
use crm_silmer.Store.Sold.{Stored, create_store_order-eq-ok}

reconciled-created :
    (s : Setup) (r : Repo) (x : Order × String) (c : Checkout) (call : Call) {o : Recorded}
    → reconcile s r x c call ≡ ok o
    → o.created ≡ false
unfolding reconcile
reconciled-created s r (stored, hash) c call {o} h =
    let (same, rest) = guard-eq-ok (same_order s stored hash c) _ _ h in
    receipt_created (stored_receipt stored) c.payment.receipt_url rest
  where
    attached_created :
        (url : String) {o : Recorded} → attach r stored url call ≡ ok o → o.created ≡ false
    attached_created url {o} e =
        let ((r', next, done), wrote, last) =
          >>=-eq-ok
            (lift (
              attach_store_receipt r (record {
                order_id = stored.id;
                receipt_url = url;
                audit = call.audit;
                now = call.reconciled_at;
              })))
            _ e in
        ap (λ (x : Recorded). x.created) (sym (ok-injective last))

    receipt_created :
        (known sent : Option String) {o : Recorded}
        → reconcile_receipt r stored known sent call ≡ ok o
        → o.created ≡ false
    receipt_created known none e = ap (λ (x : Recorded). x.created) (sym (ok-injective e))
    receipt_created none (some url) e = attached_created url e
    receipt_created (some k) (some url) e = ground arith

-- What a call that created the order left.
pub record Created (s : Setup) (r : Repo) (c : Checkout) (call : Call) (o : Recorded) : Type 0 where
  pub m : Match
  pub matched : match_store_catalog s.products s.accept_test call.now c ≡ ok m
  pub stored : Stored r (creation s m c call) o.repo o.order

raced_created :
    (s : Setup) (r : Repo) (c : Checkout) (call : Call) (x : Option (Order × String)) {o : Recorded}
    → (elim x as (λ y. Result StoreError Recorded) [
      | none ↦ err (repository_error store_order_duplicate)
      | some raced ↦ reconcile s r raced c call
    ])
      ≡ ok o
    → o.created ≡ false
raced_created s r c call none h = cc
raced_created s r c call (some x) h = reconciled-created s r x c call h

creation-Created :
    (s : Setup) (r : Repo) (c : Checkout) (call : Call) (m : Match)
    (x : Result OrderError (Repo × Order)) {o : Recorded}
    → create_store_order r (creation s m c call) ≡ x
    → created_or_raced s r c call x ≡ ok o
    → o.created ≡ true
    → Stored r (creation s m c call) o.repo o.order
creation-Created s r c call m (ok (r', saved)) made h new =
    let e = ok-injective h in
    subst (λ (y : Recorded). Stored r (creation s m c call) y.repo y.order) e
      (create_store_order-eq-ok r (creation s m c call) made)
creation-Created s r c call m (err store_order_duplicate) made h new =
    absurd (cc (raced_created s r c call (find_store_order r c.request_id) h, new))
creation-Created s r c call m (err type_error) made h new = cc
creation-Created s r c call m (err order_status_conflict) made h new = cc
creation-Created s r c call m (err version_conflict) made h new = cc
creation-Created s r c call m (err order_pending_exists) made h new = cc
creation-Created s r c call m (err idempotency_key_reused) made h new = cc
creation-Created s r c call m (err order_locked) made h new = cc
creation-Created s r c call m (err subject_target_invalid) made h new = cc
creation-Created s r c call m (err order_not_found) made h new = cc
creation-Created s r c call m (err store_order_conflict) made h new = cc
creation-Created s r c call m (err invalid_amount) made h new = cc
creation-Created s r c call m (err (order_not_confirmable bs)) made h new = cc
creation-Created s r c call m (err (invalid_date ms)) made h new = cc

found-Created :
    (s : Setup) (x : Option (Order × String)) (before r : Repo) (c : Checkout) (call : Call)
    {o : Recorded}
    → reconcile_or_create s x before r c call ≡ ok o
    → o.created ≡ true
    → Created s r c call o
found-Created s (some x) before r c call h new =
    absurd (cc (reconciled-created s before x c call h, new))
found-Created s none before r c call h new =
    let (m, matched, made) =
      >>=-eq-ok (match_store_catalog s.products s.accept_test call.now c) _ h in
    record {
      m = m;
      matched = matched;
      stored =
          creation-Created s r c call m (create_store_order r (creation s m c call)) refl made new;
    }

pub record_checkout-Created :
    (s : Setup) (before r : Repo) (c : Checkout) (call : Call) {o : Recorded}
    → record_checkout s before r c call ≡ ok o
    → o.created ≡ true
    → Created s r c call o
unfolding record_checkout
record_checkout-Created s before r c call h new =
    found-Created s (find_store_order before c.request_id) before r c call h new
