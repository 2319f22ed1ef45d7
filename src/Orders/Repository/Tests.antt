-- ===== src/Orders/Repository/Tests.antt =====
-- Runs of the order repository, and its theorems on them.
use crm_silmer.Orders.Tests.{order, ready_ficha}
use crm_silmer.Base.{
  ok, err, count, lookup, put, values, decimal, ℕ, String, ◌≡◌, refl, true, ◌&&◌, none, some, List,
  [], ◌∷◌, map, arith, eq_iff,
}
use crm_silmer.Orders.Repository.{
  Repo, pad_two, format_order_number, CreatePending, pending_for, pending_order, create_pending,
}
use crm_silmer.Orders.Repository.Writes.{WriteOptions, write, change_status, save_status}
use crm_silmer.Orders.Repository.Stores.{CreateStoreOrder, audit_of, create_store_order}
use crm_silmer.Orders.Repository.Commands.{
  Command, creates_pending, creates_store_order, saves_status, execute, run, Effect,
}
use crm_silmer.Orders.Repository.Events.{IsLogged, execute-IsLogged}
use crm_silmer.Orders.Repository.Payments.{IsSound, run-IsSound}
use crm_silmer.Orders.Repository.Pending.{
  HasOnePending, create_pending-HasOnePending, save_status_doubles_pending,
}
use crm_silmer.Orders.{
  OrderStatus, pendente, confirmado, loja, user, store_order_conflict, Order, codes,
}
use crm_silmer.Orders.Repository.Queries.{open_deliveries, real_orders, is_confirmed, summary}
use crm_silmer.Orders.Calendar.{text_leb}
use crm_silmer.Orders.Repository.Listing.{ListQuery, in_scope, recent, remaining, list_orders}
use crm_silmer.Orders.Repository.Pages.{answers, list_orders_last_page}
use crm_silmer.Orders.Repository.Effects.{execute-Effect}

abbrev empty_repo : Repo
empty_repo = record { orders = []; events = []; receipts = []; audits = []; sequence = 0 }

abbrev request : String → CreatePending
request id = record {
  id = id;
  conversation_id = some "v1";
  contact_id = some "c1";
  manual_owner_id = none;
  manual_create_key = none;
  fab_code = "FAB";
  ficha = ready_ficha;
  total_pieces = 10;
  missing_fields = [];
  created_by_kind = user;
  created_by = some "ana";
  first_contact_at = none;
  correlation_id = "k";
  now = 5;
}

abbrev options : ℕ → WriteOptions
options version = record { expected_version = version; correlation_id = "k"; agent_target = none }

abbrev status_of : OrderStatus → String → Order
status_of status id = record order { id = id; status = status }

abbrev checkout : String → String → CreateStoreOrder
checkout id request_id = record {
  order = record order { id = id; conversation_id = none; origin = loja; status = confirmado };
  payment = record { transaction_nsu = "nsu1"; confirmed_at = 6 };
  request_id = request_id;
  phone_digest = "p";
  record_sha256 = "r";
  audit = record { actor = "store"; correlation_id = "k" };
  now = 7;
}

-- A pending order, a second one that is refused, the first one confirmed, a store order, and
-- another with the same payment, which is refused.
abbrev commands : List Command
commands =
    creates_pending (request "o1")
    ∷ creates_pending (request "o2")
    ∷ saves_status (status_of confirmado "o1") (options 1)
    ∷ creates_store_order (checkout "s1" "r1")
    ∷ creates_store_order (checkout "s2" "r2")
    ∷ []

abbrev opened_repo : Repo
opened_repo = run empty_repo (creates_pending (request "o1") ∷ [])

run-sequence : (run empty_repo commands).sequence ≡ 2
unfolding run execute create_pending pending_for values put lookup format_order_number decimal
    pad_two save_status write change_status create_store_order audit_of
run-sequence = refl

store_payment_twice :
    create_store_order (run empty_repo commands) (checkout "s2" "r2") ≡ err store_order_conflict
unfolding run execute create_pending pending_for values put lookup format_order_number decimal
    pad_two save_status write change_status create_store_order audit_of
store_payment_twice = refl

empty_repo-IsSound : IsSound empty_repo
unfolding lookup
empty_repo-IsSound = record {
  keyed = λ k o e. cc;
  payments = record { one = λ j k o o' p p' e e' q q' same. cc };
  numbered = λ k o e. cc;
  distinct = λ j k o o' e e' same. cc;
}

run-IsSound_example : IsSound (run empty_repo commands)
run-IsSound_example = run-IsSound empty_repo commands empty_repo-IsSound

open_first : execute empty_repo (creates_pending (request "o1")) ≡ ok opened_repo
unfolding run execute create_pending pending_for values put lookup format_order_number decimal
    pad_two
open_first = refl

execute-Effect_example : Effect (some "o1") empty_repo opened_repo
execute-Effect_example =
    execute-Effect empty_repo (creates_pending (request "o1")) {t = opened_repo} open_first

empty_repo-IsLogged : IsLogged empty_repo
unfolding lookup
empty_repo-IsLogged = record { keyed = λ k v e. cc; counted = λ k v e. cc; unused = λ k e. refl }

execute-IsLogged_example : IsLogged opened_repo
unfolding lookup
execute-IsLogged_example =
    execute-IsLogged empty_repo (creates_pending (request "o1")) {t = opened_repo} open_first refl
      empty_repo-IsLogged

empty_repo-HasOnePending : HasOnePending empty_repo.orders
unfolding lookup
empty_repo-HasOnePending = record { one = λ j k o o' c e e' d d' p p' filled. cc }

create_first :
    create_pending empty_repo (request "o1") ≡ ok (opened_repo, pending_order (request "o1") 1)
unfolding run execute create_pending pending_for values put lookup format_order_number decimal
    pad_two
create_first = refl

create_pending-HasOnePending_example : HasOnePending opened_repo.orders
create_pending-HasOnePending_example =
    create_pending-HasOnePending empty_repo (request "o1") {t = opened_repo}
      {made = pending_order (request "o1") 1} create_first empty_repo-HasOnePending

-- The first order confirmed, and a new pending one of the same conversation.
abbrev two_orders : Repo
two_orders = record empty_repo {
  orders = ("o1", status_of confirmado "o1") ∷ ("o2", status_of pendente "o2") ∷ [];
  sequence = 2;
}

save_status_doubles_pending_example :
    (t : Repo) × (next : Order) × (save_status two_orders (status_of pendente "o1") (options 1)
      ≡ ok (t, next))
    × (¬ HasOnePending t.orders)
unfolding lookup
save_status_doubles_pending_example =
    save_status_doubles_pending two_orders "o2" (status_of pendente "o2")
      (status_of confirmado "o1") (status_of pendente "o1") "v1" (options 1) refl refl
      (λ e. ground (arith, e, eq_iff "o2" "o1")) refl refl refl refl refl refl refl refl refl

-- Two confirmed orders of the counter, a pending one and one of the store.
abbrev full_repo : Repo
full_repo = record empty_repo {
  orders =
      (
        "o2",
        record (status_of confirmado "o2") {
          number_sequence = 2;
          final_amount_cents = some 300;
          order_date = some (codes "2026-02-01");
        },
      )
      ∷ (
        "o1",
        record (status_of confirmado "o1") {
          final_amount_cents = some 200;
          order_date = some (codes "2026-03-05");
        },
      )
      ∷ ("o3", status_of pendente "o3")
      ∷ (
        "s1",
        record (checkout "s1" "r1").order {
          gateway_payment = some (record { transaction_nsu = "nsu1"; confirmed_at = 6 });
          final_amount_cents = some 101;
          order_date = some (codes "2026-03-06");
        },
      )
      ∷ [];
  sequence = 4;
}

summary_march : summary full_repo (codes "2026-03-01") (codes "2026-03-31") ≡ record {
  confirmed_count = 3;
  sold_amount_cents = 601;
  average_ticket_cents = 200;
  pending_count = 1;
  total_pieces_sold = 30;
  store_new_count = 1;
  store_new_oldest_paid_at = some 6;
  period_confirmed_count = 2;
  period_sold_amount_cents = 301;
}
unfolding summary real_orders values text_leb
summary_march = refl

deliveries : map (λ (o : Order). o.id) (open_deliveries full_repo) ≡ "o1" ∷ "o2" ∷ []
unfolding open_deliveries values
deliveries = refl

abbrev trial_order : Order
trial_order = record (status_of confirmado "o9") { is_test = true; final_amount_cents = some 999 }

abbrev newest_two : ListQuery
newest_two = record {
  after = none;
  conversation_ids = some ("v1" ∷ []);
  contact_ids = none;
  limit = 2;
  number_sequence = none;
  origin = none;
  owner = none;
  phone_digests = none;
  status = none;
  store_number = none;
}

abbrev next_two : ListQuery
next_two = record newest_two { after = some (record { updated_at = 5; id = "o2" }) }

first_page : list_orders full_repo newest_two ≡ record {
  confirmed_count = 2;
  pending_count = 1;
  items =
      status_of pendente "o3"
      ∷ record (status_of confirmado "o2") {
        number_sequence = 2;
        final_amount_cents = some 300;
        order_date = some (codes "2026-02-01");
      }
      ∷ [];
  next_cursor = some (record { updated_at = 5; id = "o2" });
}
unfolding list_orders remaining in_scope recent text_leb values
first_page = refl

second_page : map (λ (o : Order). o.id) (list_orders full_repo next_two).items ≡ "o1" ∷ []
unfolding list_orders remaining in_scope recent text_leb values
second_page = refl

list_orders_last_page_example :
    count is_confirmed (list_orders full_repo next_two).items
    ≡ count (λ o. answers full_repo next_two o && is_confirmed o) (values full_repo.orders)
unfolding list_orders remaining in_scope recent text_leb values
list_orders_last_page_example =
    list_orders_last_page full_repo next_two is_confirmed (omega arith) refl
