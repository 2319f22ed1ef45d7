-- ===== src/Deals.antt =====
-- modules/deals-pipeline/src: the stages of `domain/deal.js` and
-- `adapters/in-memory-deal-repository.js`, whose deals, gates and history the commands of
-- `application/deal-command-service.js` change. A stored stage is one of the five, and instants are
-- milliseconds.
pub mod Validation
pub mod Executor
pub mod Commands
pub mod Checks
pub mod Changes
pub mod Trace
pub mod Retries
mod Tests
use crm_silmer.Base.{
  ◌==◌, nat_eq, text_eq, Result, ok, ◌>>=◌, ◌>>◌, guard, or_throw, get_elem?, Table, lookup, put, ℕ,
  zero, suc, ◌+◌, String, Option, none, some, List, [], ◌∷◌, ◌++◌,
}

pub data Stage : Type 0 where
  produto especificacao estampa logistica fechamento : Stage

pub data Direction : Type 0 where
  advance retreat : Direction

abbrev pub deal_stages : List Stage
deal_stages = produto ∷ especificacao ∷ estampa ∷ logistica ∷ fechamento ∷ []

-- `DEAL_STAGES.indexOf`
unfoldable pub position : Stage → ℕ
position produto = 0
position especificacao = 1
position estampa = 2
position logistica = 3
position fechamento = 4

-- `null` past the ends.
unfoldable pub derive_deal_stage : Stage → Direction → Option Stage
unfolding position
derive_deal_stage stage advance = get_elem? deal_stages (position stage + 1)
derive_deal_stage stage retreat = elim (position stage) [
  | zero ↦ none
  | suc before ↦ get_elem? deal_stages before
]

pub data DealStatus : Type 0 where
  active won lost : DealStatus

pub data DealError : Type 0 where
  conflict_error validation_error : String → DealError
  forbidden_error gate_incomplete idempotency_key_reused port_error : DealError

pub record Deal : Type 0 where
  pub id : String
  pub stage : Stage
  pub status : DealStatus
  pub lost_at : Option ℕ
  pub loss_reason_envelope : Option String
  pub updated_at : ℕ
  pub version : ℕ

pub record Gate : Type 0 where
  pub deal_id : String
  pub evaluated_at : ℕ
  pub from_stage : Stage
  pub version : ℕ

pub data HistoryKind : Type 0 where
  advanced retreated lost returned : HistoryKind

pub record Entry : Type 0 where
  pub actor_id : String
  pub deal_id : String
  pub from_stage : Stage
  pub kind : HistoryKind
  pub occurred_at : ℕ
  pub reason : Option String
  pub resulting_version : ℕ
  pub to_stage : Option Stage

pub record DealRepo : Type 0 where
  pub deals : Table Deal
  pub gates : List Gate
  pub history : List Entry

-- `#current`
unfoldable pub current : DealRepo → Deal → Result DealError Deal
current r deal = do
  stored ← or_throw (lookup deal.id r.deals) (conflict_error "Deal changed during command")
  guard (stored.version == deal.version) (conflict_error "Deal changed during command")
  ok stored

-- The check of `executeLocked`, which runs its operation on the deal it finds. Commands on one deal
-- wait for each other.
unfoldable pub locked : DealRepo → (deal_id : String) (expected_version : ℕ) → Result DealError Deal
locked r deal_id expected_version = do
  deal ←
      or_throw (lookup deal_id r.deals) (conflict_error "Deal version conflicts with current state")
  guard (deal.version == expected_version)
      (conflict_error "Deal version conflicts with current state")
  ok deal

abbrev pub kind_of : Direction → HistoryKind
kind_of advance = advanced
kind_of retreat = retreated

abbrev pub listed : Option Gate → List Gate
listed none = []
listed (some gate) = gate ∷ []

pub record Transition : Type 0 where
  pub actor_id : String
  pub deal : Deal
  pub direction : Direction
  pub gate : Option Gate
  pub occurred_at : ℕ
  pub reason : String
  pub to_stage : Stage

abbrev pub entry_of :
    Deal → String → HistoryKind → ℕ → (reason : Option String) (to_stage : Option Stage) → Entry
entry_of stored actor_id kind occurred_at reason to_stage = record {
  actor_id = actor_id;
  deal_id = stored.id;
  from_stage = stored.stage;
  kind = kind;
  occurred_at = occurred_at;
  reason = reason;
  resulting_version = stored.version + 1;
  to_stage = to_stage;
}

abbrev pub moved : Deal → Transition → Deal
moved stored input = record stored {
  stage = input.to_stage;
  updated_at = input.occurred_at;
  version = stored.version + 1;
}

unfoldable pub apply_transition : DealRepo → Transition → Result DealError (DealRepo × Deal)
unfolding current
apply_transition r input = do
  stored ← current r input.deal
  let next = moved stored input
  let entry =
      entry_of stored input.actor_id (kind_of input.direction) input.occurred_at (some input.reason)
        (some input.to_stage)
  ok (
    record {
      deals = put input.deal.id next r.deals;
      gates = r.gates ++ listed input.gate;
      history = r.history ++ entry ∷ [];
    },
    next,
  )

pub record Loss : Type 0 where
  pub actor_id : String
  pub deal : Deal
  pub loss_reason_envelope : String
  pub occurred_at : ℕ

abbrev pub given_up : Deal → Loss → Deal
given_up stored input = record stored {
  lost_at = some input.occurred_at;
  loss_reason_envelope = some input.loss_reason_envelope;
  status = lost;
  updated_at = input.occurred_at;
  version = stored.version + 1;
}

unfoldable pub lose : DealRepo → Loss → Result DealError (DealRepo × Deal)
unfolding current
lose r input = do
  stored ← current r input.deal
  let next = given_up stored input
  let entry = entry_of stored input.actor_id HistoryKind.lost input.occurred_at none none
  ok (record r { deals = put input.deal.id next r.deals; history = r.history ++ entry ∷ [] }, next)

pub record Fields : Type 0 where
  pub actor_id : String
  pub deal : Deal
  pub returned_to : Option Stage
  pub occurred_at : ℕ

abbrev pub stage_or : Stage → Option Stage → Stage
stage_or stage none = stage
stage_or stage (some to) = to

abbrev pub touched : Deal → Fields → Deal
touched stored input = record stored {
  stage = stage_or stored.stage input.returned_to;
  updated_at = input.occurred_at;
  version = stored.version + 1;
}

-- The entry of a deal that goes back, if it does.
abbrev pub return_entries : Deal → Fields → Option Stage → List Entry
return_entries stored input none = []
return_entries stored input (some to) =
    entry_of stored input.actor_id returned input.occurred_at none (some to) ∷ []

unfoldable pub apply_fields : DealRepo → Fields → Result DealError (DealRepo × Deal)
unfolding current
apply_fields r input = do
  stored ← current r input.deal
  let next = touched stored input
  ok (
    record r {
      deals = put input.deal.id next r.deals;
      history = r.history ++ return_entries stored input input.returned_to;
    },
    next,
  )
