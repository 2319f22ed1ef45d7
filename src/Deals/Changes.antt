-- ===== src/Deals/Changes.antt =====
-- The stages in both directions, and what a command does to the deals and to their history.
use crm_silmer.Base.{
  Option-cases, Result, ok, err, lookup, put, ◌+◌, String, ◌≡◌, refl, sym, subst, ◌≢◌, ◌↔◌, inl,
  inr, true, none, some, List, [], ◌∷◌, ◌++◌, arith,
}
use crm_silmer.Deals.{
  Stage, advance, retreat, derive_deal_stage, DealError, Deal, HistoryKind, advanced, retreated,
  returned, Entry, DealRepo, kind_of, Transition, entry_of, moved, apply_transition, Loss, given_up,
  lose, stage_or,
}
use crm_silmer.Deals.Validation.{
  Input, TransitionInput, validate_transition, validate_loss, normalize_common,
  normalize_transition,
}
use crm_silmer.Deals.Executor.{
  Fingerprinted, AuditEntry, Event, Answer, State, Ports, Outcome, audited, settled, execute,
}
use crm_silmer.Deals.Commands.{
  published, is_active, prepare_transition, transitioned, attempt_transition, transition_effect,
  prepare_loss, lost_outcome, attempt_loss, loss_effect, validated, transition_deal, lose_deal,
}
use crm_silmer.Deals.Checks.{
  IsKeyed, current_lem, Prepared, prepare_transition-eq-ok, prepare_loss-eq-ok,
}

-- Advancing and retreating undo each other.
derive_deal_stage-inverse :
    (s t : Stage) → (derive_deal_stage s advance ≡ some t) ↔ (derive_deal_stage t retreat ≡ some s)
unfolding derive_deal_stage
derive_deal_stage-inverse s t = ground arith

-- An entry of the history moves along the stages.
abbrev pub IsStep : Entry → Type 0
IsStep e = elim e.kind [
  | advanced ↦ (e.to_stage ≢ none) × (derive_deal_stage e.from_stage advance ≡ e.to_stage)
  | retreated ↦ (e.to_stage ≢ none) × (derive_deal_stage e.from_stage retreat ≡ e.to_stage)
  | HistoryKind.lost ↦ e.to_stage ≡ none
  | returned ↦ Unit
]

pub data Change (r t : DealRepo) : Type 0 where
  same : t ≡ r → Change r t
  shifts :
      (d d' : Deal) (e : Entry)
      → lookup d.id r.deals ≡ some d
      → is_active d.status ≡ true
      → t.deals ≡ put d.id d' r.deals
      → t.history ≡ r.history ++ e ∷ []
      → d'.id ≡ d.id
      → d'.version ≡ d.version + 1
      → e.deal_id ≡ d.id
      → d'.stage ≡ stage_or d.stage e.to_stage
      → IsStep e
      → Change r t

transition_step :
    (r : DealRepo) (ports : Ports) (c : TransitionInput) (input : Transition)
    → IsKeyed r
    → Prepared r ports c input
    → {t : DealRepo} {d : Deal} → apply_transition r input ≡ ok (t, d)
    → Change r t
unfolding apply_transition
transition_step r ports c input keyed p {t} h =
    let d = input.deal in
    let own = keyed.keyed c.common.deal_id d p.found in
    let here : lookup d.id r.deals ≡ some d =
      subst (λ x. lookup x r.deals ≡ some d) (sym own) p.found in
    let e =
      entry_of d input.actor_id (kind_of input.direction) input.occurred_at (some input.reason)
        (some input.to_stage) in
    shifts d (moved d input) e here p.going (ground (arith, current_lem r d here))
      (ground (arith, current_lem r d here)) refl refl refl refl (ground (arith, p.derived))

loss_step :
    (r : DealRepo) (input : Loss)
    → lookup input.deal.id r.deals ≡ some input.deal
    → is_active input.deal.status ≡ true
    → {t : DealRepo} {d : Deal} → lose r input ≡ ok (t, d)
    → Change r t
unfolding lose
loss_step r input here going {t} h =
    let d = input.deal in
    let e = entry_of d input.actor_id HistoryKind.lost input.occurred_at none none in
    shifts d (given_up d input) e here going (ground (arith, current_lem r d here))
      (ground (arith, current_lem r d here)) refl refl refl refl refl

published-repo :
    (event : Event) (ports : Ports) (s : State) (repo : DealRepo) (a : Answer)
    → (published event ports s repo a).1.repo ≡ repo
published-repo event ports s repo a = ground arith

executed-repo :
    (key fingerprint : String) (entry : AuditEntry) (ports : Ports) (o : Outcome)
    → (settled key fingerprint (audited entry ports o)).1.repo ≡ o.1.repo
executed-repo key fingerprint entry ports (err e, t) = refl
executed-repo key fingerprint entry ports (ok a, t) = ground arith

execute-Change :
    (key fingerprint : String) (entry : AuditEntry) (ports : Ports) (effect : State → Outcome)
    (s : State)
    → Change s.repo (effect s).1.repo
    → Change s.repo (execute key fingerprint entry ports effect s).1.repo
unfolding execute
execute-Change key fingerprint entry ports effect s done =
    elim (Option-cases (lookup key s.records)) [
      | inr (r, found) ↦ same (ground arith)
      | inl fresh ↦
          let e : (execute key fingerprint entry ports effect s).1.repo ≡ (effect s).1.repo =
            ground (arith, executed-repo key fingerprint entry ports (effect s), fresh) in
          rw e done
    ]

transition_effect-Change :
    (ports : Ports) (c : TransitionInput) (s : State)
    → IsKeyed s.repo
    → Change s.repo (transition_effect ports c s).1.repo
unfolding transition_effect
transition_effect-Change ports c s keyed = tried (prepare_transition s.repo ports c) refl
  where
    applied :
        (input : Transition) (m : Result DealError (DealRepo × Deal))
        → apply_transition s.repo input ≡ m
        → prepare_transition s.repo ports c ≡ ok input
        → Change s.repo (transitioned ports s c.common.correlation_id input m).1.repo
    applied input (err e) applies prepared = same refl
    applied input (ok (repo, d)) applies prepared = rw (published-repo _ ports s repo _) (
        transition_step s.repo ports c input keyed
          (prepare_transition-eq-ok s.repo ports c prepared) applies)

    tried :
        (m : Result DealError Transition)
        → prepare_transition s.repo ports c ≡ m
        → Change s.repo (attempt_transition ports s c.common.correlation_id m).1.repo
    tried (err e) prepared = same refl
    tried (ok input) prepared = applied input (apply_transition s.repo input) refl prepared

loss_effect-Change :
    (ports : Ports) (c : Input) (s : State)
    → IsKeyed s.repo
    → Change s.repo (loss_effect ports c s).1.repo
unfolding loss_effect
loss_effect-Change ports c s keyed = tried (prepare_loss s.repo ports c) refl
  where
    applied :
        (input : Loss) (m : Result DealError (DealRepo × Deal))
        → lose s.repo input ≡ m
        → prepare_loss s.repo ports c ≡ ok input
        → Change s.repo (lost_outcome ports s c.correlation_id input m).1.repo
    applied input (err e) applies prepared = same refl
    applied input (ok (repo, d)) applies prepared =
        let (found, going) = prepare_loss-eq-ok s.repo ports c prepared in
        let own = keyed.keyed c.deal_id input.deal found in
        let here = subst (λ x. lookup x s.repo.deals ≡ some input.deal) (sym own) found in
        rw (published-repo _ ports s repo _) (loss_step s.repo input here going applies)

    tried :
        (m : Result DealError Loss)
        → prepare_loss s.repo ports c ≡ m
        → Change s.repo (attempt_loss ports s c.correlation_id m).1.repo
    tried (err e) prepared = same refl
    tried (ok input) prepared = applied input (lose s.repo input) refl prepared

validated-Change :
    (r : DealRepo) (v : Result DealError (Unit {0})) (s : State) (o : Outcome)
    → s.repo ≡ r
    → Change r o.1.repo
    → Change r (validated v s o).1.repo
validated-Change r (err e) s o here done = same here
validated-Change r (ok u) s o here done = done

pub data Command : Type 0 where
  transitions : Ports → TransitionInput → Command
  losses : Ports → Input → Command

module _ (fingerprint_command : Fingerprinted → String) (sha256 : String → String) where
  -- The state after a command, whether it answered or threw.
  unfoldable pub step : State → Command → State
  step s (transitions ports input) = (transition_deal fingerprint_command sha256 ports input s).1
  step s (losses ports input) = (lose_deal fingerprint_command sha256 ports input s).1

  unfoldable pub run : State → List Command → State
  run s [] = s
  run s (c ∷ cs) = run (step s c) cs

  -- A command leaves the deals and the history, or moves or loses one active deal along the stages,
  -- with one entry about it and the next version.
  pub step-Change : (s : State) (c : Command) → IsKeyed s.repo → Change s.repo (step s c).repo
  unfolding step transition_deal lose_deal
  step-Change s (transitions ports input) keyed =
      validated-Change s.repo (validate_transition input) s _ refl (
        execute-Change _ _ _ ports (transition_effect ports (normalize_transition input)) s
          (transition_effect-Change ports (normalize_transition input) s keyed))
  step-Change s (losses ports input) keyed =
      validated-Change s.repo (validate_loss input) s _ refl (
        execute-Change _ _ _ ports (loss_effect ports (normalize_common input)) s
          (loss_effect-Change ports (normalize_common input) s keyed))
