-- ===== src/Deals/Commands.antt =====
-- `transitionDeal` and `loseDeal` of `deal-command-service.js` over the in-memory repository. What
-- the ports answer in a call is an argument; SHA-256 of a text and the digest that
-- `fingerprintCommand` makes of the parts of a request are parameters.
use crm_silmer.Base.{
  if◌then◌else◌, Result, ok, err, ◌>>=◌, ◌>>◌, guard, or_throw, String, Bool, true, false, not,
  ◌||◌, Option, none, some, [], ◌∷◌, ◌++◌,
}
use crm_silmer.Deals.{
  Direction, advance, retreat, derive_deal_stage, DealStatus, active, DealError, conflict_error,
  gate_incomplete, port_error, Deal, Gate, DealRepo, locked, Transition, apply_transition, Loss,
  lose,
}
use crm_silmer.Deals.Validation.{
  Input, TransitionInput, is_automation, validate_transition, validate_loss, normalize_common,
  normalize_transition,
}
use crm_silmer.Deals.Executor.{
  Body, moves, loses, Fingerprinted, AuditEntry, stage_changed, deal_lost, Event, Answer, State,
  Ports, Outcome, storage_key, execute,
}

-- An event, which its port may refuse, after the repository was written.
abbrev pub published : Event → Ports → State → DealRepo → Answer → Outcome
published event ports s repo answer =
    let t : State = record s { repo = repo } in
    if ports.event_stored event
    then (ok answer, record t { events = t.events ++ event ∷ [] })
    else (err port_error, t)

-- The gate of an advance, which nothing may block.
unfoldable pub gate_of : Direction → Ports → Deal → Result DealError (Option Gate)
gate_of retreat ports deal = ok none
gate_of advance ports deal = do
  blockers ←
      or_throw (ports.blockers deal.id deal.stage)
        (conflict_error "Qualification gate is unavailable")
  guard (elim blockers [ [] ↦ true | _ ∷ _ ↦ false ]) gate_incomplete
  ok (
      some (record {
        deal_id = deal.id;
        evaluated_at = ports.now;
        from_stage = deal.stage;
        version = deal.version;
      }))

abbrev pub is_active : DealStatus → Bool
is_active active = true
is_active _ = false

unfoldable pub prepare_transition : DealRepo → Ports → TransitionInput → Result DealError Transition
unfolding locked derive_deal_stage gate_of
prepare_transition r ports c = do
  deal ← locked r c.common.deal_id c.common.expected_version
  guard (is_active deal.status) (conflict_error "Deal is not active")
  guard
      (not (is_automation c.common.actor.kind)
        || ports.fence_holds c.automation_epoch c.conversation_id deal.id)
      port_error
  to ←
      or_throw (derive_deal_stage deal.stage c.direction)
        (conflict_error "Deal cannot cross the stage boundary")
  gate ← gate_of c.direction ports deal
  ok (record {
    actor_id = c.common.actor.id;
    deal = deal;
    direction = c.direction;
    gate = gate;
    occurred_at = ports.now;
    reason = c.common.reason;
    to_stage = to;
  })

abbrev transition_event : Transition → Deal → String → Event
transition_event input changed correlation_id = record {
  aggregate_id = input.deal.id;
  aggregate_version = changed.version;
  correlation_id = correlation_id;
  occurred_at = input.occurred_at;
  payload = stage_changed input.direction input.deal.stage input.to_stage;
}

abbrev pub transitioned :
    Ports → State → String → Transition → Result DealError (DealRepo × Deal) → Outcome
transitioned ports s correlation_id input (err e) = (err e, s)
transitioned ports s correlation_id input (ok (repo, changed)) =
    published (transition_event input changed correlation_id) ports s repo
      (record { deal = changed; gate = input.gate })

abbrev pub attempt_transition : Ports → State → String → Result DealError Transition → Outcome
attempt_transition ports s correlation_id (err e) = (err e, s)
attempt_transition ports s correlation_id (ok input) =
    transitioned ports s correlation_id input (apply_transition s.repo input)

unfoldable pub transition_effect : Ports → TransitionInput → State → Outcome
unfolding prepare_transition apply_transition
transition_effect ports c s =
    attempt_transition ports s c.common.correlation_id (prepare_transition s.repo ports c)

unfoldable pub prepare_loss : DealRepo → Ports → Input → Result DealError Loss
unfolding locked
prepare_loss r ports c = do
  deal ← locked r c.deal_id c.expected_version
  guard (is_active deal.status) (conflict_error "Deal is not active")
  ok (record {
    actor_id = c.actor.id;
    deal = deal;
    loss_reason_envelope = ports.encrypt c.reason deal.id;
    occurred_at = ports.now;
  })

abbrev loss_event : Loss → Deal → String → Event
loss_event input changed correlation_id = record {
  aggregate_id = input.deal.id;
  aggregate_version = changed.version;
  correlation_id = correlation_id;
  occurred_at = input.occurred_at;
  payload = deal_lost input.deal.stage;
}

abbrev pub lost_outcome :
    Ports → State → String → Loss → Result DealError (DealRepo × Deal) → Outcome
lost_outcome ports s correlation_id input (err e) = (err e, s)
lost_outcome ports s correlation_id input (ok (repo, changed)) =
    published (loss_event input changed correlation_id) ports s repo
      (record { deal = changed; gate = none })

abbrev pub attempt_loss : Ports → State → String → Result DealError Loss → Outcome
attempt_loss ports s correlation_id (err e) = (err e, s)
attempt_loss ports s correlation_id (ok input) =
    lost_outcome ports s correlation_id input (lose s.repo input)

unfoldable pub loss_effect : Ports → Input → State → Outcome
unfolding prepare_loss lose
loss_effect ports c s = attempt_loss ports s c.correlation_id (prepare_loss s.repo ports c)

-- The audit of a command on a deal; its action is also a part of the key.
abbrev pub audit_of : Input → (action reason : String) → AuditEntry
audit_of command action reason = record {
  actor = command.actor.id;
  action = action;
  target_id = command.deal_id;
  version = command.expected_version;
  reason = reason;
  correlation_id = command.correlation_id;
}

abbrev pub validated : Result DealError (Unit {0}) → State → Outcome → Outcome
validated (err e) s o = (err e, s)
validated (ok u) s o = o

module _ (fingerprint_command : Fingerprinted → String) (sha256 : String → String) where
  abbrev pub fingerprint_of : Input → (action reason : String) → Body → String
  fingerprint_of command action reason body = fingerprint_command (record {
    action = action;
    target_id = command.deal_id;
    version = command.expected_version;
    reason = reason;
    body = body;
  })

  abbrev pub run_transition : Ports → TransitionInput → State → Outcome
  run_transition ports c =
      let body = moves c.direction c.automation_epoch c.conversation_id in
      execute (storage_key c.common "deal.transition")
        (fingerprint_of c.common "deal.transition" c.common.reason body)
        (audit_of c.common "deal.transition" c.common.reason) ports (transition_effect ports c)

  unfoldable pub transition_deal : Ports → TransitionInput → State → Outcome
  unfolding validate_transition normalize_transition execute transition_effect
  transition_deal ports input s =
      validated (validate_transition input) s (run_transition ports (normalize_transition input) s)

  abbrev pub loss_audit_reason : String
  loss_audit_reason = "Perda registrada por decisão humana"

  abbrev pub run_loss : Ports → Input → State → Outcome
  run_loss ports c =
      execute (storage_key c "deal.lose")
        (fingerprint_of c "deal.lose" loss_audit_reason (loses (sha256 c.reason)))
        (audit_of c "deal.lose" loss_audit_reason) ports (loss_effect ports c)

  unfoldable pub lose_deal : Ports → Input → State → Outcome
  unfolding validate_loss normalize_common execute loss_effect
  lose_deal ports input s =
      validated (validate_loss input) s (run_loss ports (normalize_common input) s)
