-- ===== src/Orders/Repository/Commands.antt =====
-- The commands of the order repository as one type, and how one may change the orders, the events
-- and the sequence.
use crm_silmer.Base.{
  Result, ok, err, after, any, lookup, put, values, ◌+◌, String, ◌≡◌, ◌⊎◌, false, Option, none,
  some, List, [], ◌∷◌, ◌++◌,
}
use crm_silmer.Orders.Repository.{Event, Repo, CreatePending, create_pending}
use crm_silmer.Orders.Repository.Writes.{
  WriteOptions, save_section, project_briefing, save_status, save_milestones,
}
use crm_silmer.Orders.Repository.Stores.{
  CreateStoreOrder, paid_by, create_store_order, AttachReceipt, Outcome, attach_store_receipt,
  FirstPrint, record_first_print,
}
use crm_silmer.Orders.{OrderError, GatewayPayment, Order}

pub data Command : Type 0 where
  creates_pending : CreatePending → Command
  creates_store_order : CreateStoreOrder → Command
  attaches_receipt : AttachReceipt → Command
  prints_first : FirstPrint → Command
  saves_section projects_briefing saves_status saves_milestones : Order → WriteOptions → Command

abbrev pub repo_of : {A : Type 0} → Result OrderError (Repo × A) → Result OrderError Repo
repo_of (ok (r, a)) = ok r
repo_of (err e) = err e

abbrev pub outcome_of : Result OrderError Outcome → Result OrderError Repo
outcome_of (ok (r, o, b)) = ok r
outcome_of (err e) = err e

unfoldable pub execute : Repo → Command → Result OrderError Repo
execute r (creates_pending input) = repo_of (create_pending r input)
execute r (creates_store_order input) = repo_of (create_store_order r input)
execute r (attaches_receipt input) = outcome_of (attach_store_receipt r input)
execute r (prints_first input) = outcome_of (record_first_print r input)
execute r (saves_section order options) = repo_of (save_section r order options)
execute r (projects_briefing order options) = repo_of (project_briefing r order options)
execute r (saves_status order options) = repo_of (save_status r order options)
execute r (saves_milestones order options) = repo_of (save_milestones r order options)

unfoldable pub run : Repo → List Command → Repo
run r [] = r
run r (c ∷ cs) = run (after r (execute r c)) cs

-- What no later command changes of an order.
pub record SameIdentity (o o' : Order) : Type 0 where
  pub id : o'.id ≡ o.id
  pub number_sequence : o'.number_sequence ≡ o.number_sequence
  pub gateway_payment : o'.gateway_payment ≡ o.gateway_payment
  pub conversation_id : o'.conversation_id ≡ o.conversation_id
  pub origin : o'.origin ≡ o.origin

abbrev pub Unpaid : Repo → Option GatewayPayment → Type 0
Unpaid r none = Unit
Unpaid r (some p) = any (paid_by p.transaction_nsu) (values r.orders) ≡ false

-- `new` is the id that the command may create an order with.
pub data Effect (new : Option String) (r t : Repo) : Type 0 where
  idle : t ≡ r → Effect new r t
  adds :
      (o : Order) (e : Event)
      → t.orders ≡ put o.id o r.orders
      → t.events ≡ r.events ++ e ∷ []
      → t.sequence ≡ r.sequence + 1
      → o.version ≡ 1
      → o.number_sequence ≡ r.sequence + 1
      → e.order_id ≡ o.id
      → Unpaid r o.gateway_payment
      → new ≡ some o.id
      → Effect new r t
  changes :
      (k id : String) (o o' : Order) (e : Event)
      → lookup id r.orders ≡ some o
      → (k ≡ id) ⊎ (k ≡ o.id)
      → t.orders ≡ put k o' r.orders
      → t.events ≡ r.events ++ e ∷ []
      → t.sequence ≡ r.sequence
      → o'.version ≡ o.version + 1
      → e.order_id ≡ o.id
      → SameIdentity o o'
      → Effect new r t

-- The id that a command may create an order with.
abbrev pub new_id : Command → Option String
new_id (creates_pending input) = some input.id
new_id (creates_store_order input) = some input.order.id
new_id _ = none
