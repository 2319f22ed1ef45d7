-- ===== src/Deals/Retries.antt =====
-- Retries of a deal command, and what an automation may do.
use crm_silmer.Base.{
  ◌==◌, nat_eq, text_eq, Option-cases, Result, ok, err, lookup, lookup-put, String, ◌≡◌, refl, inl,
  inr, false, some, arith, eq_iff,
}
use crm_silmer.Deals.{DealError, idempotency_key_reused}
use crm_silmer.Deals.Validation.{
  Input, TransitionInput, validate_transition, validate_loss, normalize_common,
  normalize_transition,
}
use crm_silmer.Deals.Executor.{
  Fingerprinted, AuditEntry, Answer, Completed, State, Ports, Outcome, audited, settled,
  answered_before, execute,
}
use crm_silmer.Deals.Commands.{
  transition_effect, loss_effect, audit_of, validated, transition_deal, loss_audit_reason,
  lose_deal,
}

-- What an answered command leaves under its key.
abbrev Answered : String → String → State → Answer → Type 0
Answered key fingerprint t a =
    (r : Completed) × (lookup key t.records ≡ some r)
    × (r.fingerprint ≡ fingerprint)
    × (r.response ≡ a)

settled-Answered :
    (key fingerprint : String) (o : Outcome) (t : State) (a : Answer)
    → settled key fingerprint o ≡ (ok a, t)
    → Answered key fingerprint t a
settled-Answered key fingerprint (err e, u) t a h = ground arith
settled-Answered key fingerprint (ok b, u) t a h =
    let r : Completed = record { fingerprint = fingerprint; response = a } in
    (r, ground (arith, lookup-put key key r u.records, eq_iff key key), refl, refl)

answered_before-Answered :
    (key fingerprint : String) (s t : State) (r : Completed) (a : Answer)
    → lookup key s.records ≡ some r
    → answered_before fingerprint s r ≡ (ok a, t)
    → Answered key fingerprint t a
answered_before-Answered key fingerprint s t r a found h =
    (r, ground arith, ground (arith, eq_iff r.fingerprint fingerprint), ground arith)

execute-Answered :
    (key fingerprint : String) (entry : AuditEntry) (ports : Ports) (effect : State → Outcome)
    (s t : State) (a : Answer)
    → execute key fingerprint entry ports effect s ≡ (ok a, t)
    → Answered key fingerprint t a
unfolding execute
execute-Answered key fingerprint entry ports effect s t a h =
    elim (Option-cases (lookup key s.records)) [
      | inr (r, found) ↦ answered_before-Answered key fingerprint s t r a found (ground arith)
      | inl fresh ↦
          settled-Answered key fingerprint (audited entry ports (effect s)) t a (ground arith)
    ]

execute-replay :
    (key fingerprint : String) (entry : AuditEntry) (ports : Ports) (effect : State → Outcome)
    (t : State) (a : Answer)
    → Answered key fingerprint t a
    → execute key fingerprint entry ports effect t ≡ (ok a, t)
unfolding execute
execute-replay key fingerprint entry ports effect t a (r, found, same, result) =
    ground (arith, found, same, result, eq_iff r.fingerprint fingerprint)

-- After a command was answered under a key, a command with the same key and another fingerprint is
-- refused, and nothing is written.
pub execute-reused :
    (key fingerprint fingerprint' : String) (entry entry' : AuditEntry) (ports later : Ports)
    (effect effect' : State → Outcome) (s t : State) (a : Answer)
    → execute key fingerprint entry ports effect s ≡ (ok a, t)
    → (fingerprint == fingerprint') ≡ false
    → execute key fingerprint' entry' later effect' t ≡ (err idempotency_key_reused, t)
unfolding execute
execute-reused key fingerprint fingerprint' entry entry' ports later effect effect' s t a h apart =
    let (r, found, same, result) = execute-Answered key fingerprint entry ports effect s t a h in
    ground (arith, found, same)

validated-ok :
    (v : Result DealError (Unit {0})) (s t : State) (o : Outcome) (a : Answer)
    → validated v s o ≡ (ok a, t)
    → (v ≡ ok tt) × (o ≡ (ok a, t))
validated-ok (err e) s t o a h = ground arith
validated-ok (ok tt) s t o a h = (refl, h)

module _ (fingerprint_command : Fingerprinted → String) (sha256 : String → String) where
  -- A transition that was answered is answered the same when it comes again, whatever the fence,
  -- the gate, the clock and the other ports say by then, and nothing is written.
  pub transition_deal-replay :
      (ports later : Ports) (input : TransitionInput) (s t : State) (a : Answer)
      → transition_deal fingerprint_command sha256 ports input s ≡ (ok a, t)
      → transition_deal fingerprint_command sha256 later input t ≡ (ok a, t)
  unfolding transition_deal
  transition_deal-replay ports later input s t a h =
      let (valid, done) = validated-ok (validate_transition input) s t _ a h in
      let c = normalize_transition input in
      rw valid (
        execute-replay _ _ (audit_of c.common "deal.transition" c.common.reason) later
          (transition_effect later c) t a
          (execute-Answered _ _ _ ports (transition_effect ports c) s t a done))

  -- A loss that was answered is answered the same when it comes again, and nothing is written.
  lose_deal-replay :
      (ports later : Ports) (input : Input) (s t : State) (a : Answer)
      → lose_deal fingerprint_command sha256 ports input s ≡ (ok a, t)
      → lose_deal fingerprint_command sha256 later input t ≡ (ok a, t)
  unfolding lose_deal
  lose_deal-replay ports later input s t a h =
      let (valid, done) = validated-ok (validate_loss input) s t _ a h in
      let c = normalize_common input in
      rw valid (
        execute-replay _ _ (audit_of c "deal.lose" (loss_audit_reason fingerprint_command sha256))
          later (loss_effect later c) t a
          (execute-Answered _ _ _ ports (loss_effect ports c) s t a done))
