-- ===== src/Deals/Tests.antt =====
-- Runs of the deal commands, and their theorems on them.
use crm_silmer.Base.{
  text_eq, nat_eq, ◌==◌, ok, err, lookup, put, is_space, trim_start, trim_end, trim, text_join, ℕ,
  String, ◌≡◌, refl, true, false, none, some, List, [], ◌∷◌, arith, eq_iff,
}
use crm_silmer.Deals.{
  produto, especificacao, Direction, advance, retreat, position, derive_deal_stage, active, lost,
  forbidden_error, port_error, Deal, DealRepo, current, locked, apply_transition, lose,
}
use crm_silmer.Deals.Validation.{
  human, automation_executor, Actor, Input, TransitionInput, require_non_empty, validate_common,
  validate_transition, validate_loss, normalize_common, normalize_transition,
}
use crm_silmer.Deals.Executor.{Fingerprinted, AuditEntry, Answer, State, Ports, execute}
use crm_silmer.Deals.Commands.{
  gate_of, prepare_transition, transition_effect, prepare_loss, loss_effect, audit_of,
  transition_deal, lose_deal,
}
use crm_silmer.Deals.Checks.{IsKeyed, Granted, transition_effect-eq-ok}
use crm_silmer.Deals.Changes.{Command, transitions, losses}

abbrev fresh_deal : Deal
fresh_deal = record {
  id = "d1";
  stage = produto;
  status = active;
  lost_at = none;
  loss_reason_envelope = none;
  updated_at = 0;
  version = 1;
}

abbrev start_repo : DealRepo
start_repo = record { deals = ("d1", fresh_deal) ∷ []; gates = []; history = [] }

abbrev start : State
start = record { repo = start_repo; events = []; audits = []; records = [] }

abbrev ports : Ports
ports = record {
  fence_holds = λ epoch conversation deal. elim epoch [ none ↦ false | some e ↦ e == 4 ];
  blockers = λ deal stage. some [];
  now = 10;
  encrypt = λ reason deal. reason;
  event_stored = λ _. true;
  audit_stored = λ _. true;
}

-- Ports that answer nothing well.
abbrev closed_ports : Ports
closed_ports = record ports {
  fence_holds = λ epoch conversation deal. false;
  blockers = λ deal stage. none;
  event_stored = λ _. false;
  audit_stored = λ _. false;
}

abbrev seller : Actor
seller = record { id = "ana"; kind = human; function_name = some "Vendedor" }

abbrev robot : Actor
robot = record { id = "AUTOMATION_EXECUTOR"; kind = automation_executor; function_name = none }

abbrev common : Actor → String → ℕ → Input
common actor key version = record {
  actor = actor;
  deal_id = " d1 ";
  correlation_id = "c";
  idempotency_key = key;
  reason = "r";
  expected_version = version;
}

abbrev step_to : Direction → String → ℕ → TransitionInput
step_to direction key version = record {
  common = common seller key version;
  direction = direction;
  automation_epoch = none;
  conversation_id = none;
}

abbrev automated : ℕ → TransitionInput
automated epoch = record {
  common = common robot "k9" 1;
  direction = advance;
  automation_epoch = some epoch;
  conversation_id = some "v1";
}

abbrev digest : Fingerprinted → String
digest f = text_join "." f.target_id f.reason

abbrev hash : String → String
hash t = t

-- An advance, a retreat, one that no stage stands before, a loss, and an advance that is refused.
abbrev commands : List Command
commands =
    transitions ports (step_to advance "k1" 1)
    ∷ transitions ports (step_to retreat "k2" 2)
    ∷ transitions ports (step_to retreat "k3" 3)
    ∷ losses ports (common seller "k4" 3)
    ∷ transitions ports (step_to advance "k5" 4)
    ∷ []

abbrev advanced_state : State
advanced_state = (transition_deal digest hash ports (step_to advance "k1" 1) start).1

abbrev advanced_answer : Answer
advanced_answer = record {
  deal = record fresh_deal { stage = especificacao; updated_at = 10; version = 2 };
  gate = some (record { deal_id = "d1"; evaluated_at = 10; from_stage = produto; version = 1 });
}

advance_once :
    transition_deal digest hash ports (step_to advance "k1" 1) start
    ≡ (ok advanced_answer, advanced_state)
unfolding transition_deal validate_transition validate_common require_non_empty normalize_transition
    normalize_common execute transition_effect prepare_transition locked derive_deal_stage position
    gate_of apply_transition current trim trim_start trim_end is_space lookup put
advance_once = refl

abbrev lost_state : State
lost_state = (lose_deal digest hash ports (common seller "k4" 1) start).1

abbrev lost_deal : Deal
lost_deal = record fresh_deal {
  status = lost;
  lost_at = some 10;
  loss_reason_envelope = some "r";
  updated_at = 10;
  version = 2;
}

lose_once :
    lose_deal digest hash ports (common seller "k4" 1) start
    ≡ (ok (record { deal = lost_deal; gate = none }), lost_state)
unfolding lose_deal validate_loss validate_common require_non_empty normalize_common execute
    loss_effect prepare_loss locked lose current trim trim_start trim_end is_space lookup put
lose_once = refl

stale_fence : (transition_deal digest hash ports (automated 3) start).0 ≡ err port_error
unfolding transition_deal validate_transition validate_common require_non_empty normalize_transition
    normalize_common execute transition_effect prepare_transition locked derive_deal_stage position
    gate_of apply_transition current trim trim_start trim_end is_space lookup put
stale_fence = refl

automation_retreats :
    (transition_deal digest hash ports (record (automated 4) { direction = retreat }) start).0
    ≡ err forbidden_error
unfolding transition_deal validate_transition validate_common require_non_empty trim trim_start
    trim_end is_space
automation_retreats = refl

start-IsKeyed : IsKeyed start_repo
unfolding lookup
start-IsKeyed = record { keyed = λ k d h. ground (arith, eq_iff "d1" k) }

transition_effect-eq-ok_example :
    Granted ports (normalize_transition (automated 4)) start_repo advanced_answer
unfolding normalize_transition normalize_common transition_effect prepare_transition locked
    derive_deal_stage position gate_of apply_transition current trim trim_start trim_end is_space
    lookup put
transition_effect-eq-ok_example =
    transition_effect-eq-ok ports (normalize_transition (automated 4)) start
      (transition_effect ports (normalize_transition (automated 4)) start).1 advanced_answer
      start-IsKeyed refl

abbrev trail : AuditEntry
trail = audit_of (common seller "k1" 1) "deal.transition" "r"

abbrev move : TransitionInput
move = normalize_transition (step_to advance "k1" 1)

abbrev executed_state : State
executed_state = (execute "k1" "f1" trail ports (transition_effect ports move) start).1
