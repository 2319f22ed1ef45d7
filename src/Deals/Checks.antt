-- ===== src/Deals/Checks.antt =====
-- What the checks of a deal command establish.
use crm_silmer.Base.{
  ◌==◌, nat_eq, text_eq, Result, ok, err, or_throw, >>=-eq-ok, guard-eq-ok, or_throw-eq-ok, lookup,
  ℕ, ◌+◌, String, ◌≡◌, refl, sym, subst, true, not, ◌||◌, Option, some, [], arith,
}
use crm_silmer.Deals.{
  Direction, advance, derive_deal_stage, DealError, conflict_error, Deal, Gate, DealRepo, current,
  locked, Transition, moved, apply_transition, Loss,
}
use crm_silmer.Deals.Validation.{Input, TransitionInput, is_automation}
use crm_silmer.Deals.Executor.{Answer, State, Ports}
use crm_silmer.Deals.Commands.{
  gate_of, is_active, prepare_transition, transitioned, attempt_transition, transition_effect,
  prepare_loss,
}

pub record IsKeyed (r : DealRepo) : Type 0 where
  pub keyed : (k : String) (d : Deal) → lookup k r.deals ≡ some d → d.id ≡ k

locked-eq-ok :
    (r : DealRepo) (id : String) (version : ℕ) {d : Deal}
    → locked r id version ≡ ok d
    → lookup id r.deals ≡ some d
unfolding locked
locked-eq-ok r id version h =
    let (d, found, h1) = >>=-eq-ok (or_throw (lookup id r.deals) (conflict_error _)) _ h in
    ground (arith, or_throw-eq-ok (lookup id r.deals) _ found)

locked-version :
    (r : DealRepo) (id : String) (version : ℕ) {d : Deal}
    → locked r id version ≡ ok d
    → d.version ≡ version
unfolding locked
locked-version r id version h =
    let (d, found, h1) = >>=-eq-ok (or_throw (lookup id r.deals) (conflict_error _)) _ h in
    let (here, h2) = guard-eq-ok (d.version == version) _ _ h1 in ground arith

gate_of-unblocked :
    (direction : Direction) (ports : Ports) (d : Deal) {g : Option Gate}
    → gate_of direction ports d ≡ ok g
    → direction ≡ advance
    → ports.blockers d.id d.stage ≡ some []
unfolding gate_of
gate_of-unblocked direction ports d h forward = ground arith

pub current_lem : (r : DealRepo) (d : Deal) → lookup d.id r.deals ≡ some d → current r d ≡ ok d
unfolding current
current_lem r d h = ground arith

pub record Prepared (r : DealRepo) (ports : Ports) (c : TransitionInput) (input : Transition)
    : Type 0 where
  pub found : lookup c.common.deal_id r.deals ≡ some input.deal
  pub going : is_active input.deal.status ≡ true
  pub derived : derive_deal_stage input.deal.stage input.direction ≡ some input.to_stage
  pub fenced :
      is_automation c.common.actor.kind ≡ true
      → ports.fence_holds c.automation_epoch c.conversation_id input.deal.id ≡ true
  pub unblocked : c.direction ≡ advance → ports.blockers input.deal.id input.deal.stage ≡ some []
  pub direction : input.direction ≡ c.direction
  pub version : input.deal.version ≡ c.common.expected_version

pub prepare_transition-eq-ok :
    (r : DealRepo) (ports : Ports) (c : TransitionInput) {input : Transition}
    → prepare_transition r ports c ≡ ok input
    → Prepared r ports c input
unfolding prepare_transition
prepare_transition-eq-ok r ports c {input} h =
    let (d, got, h1) = >>=-eq-ok (locked r c.common.deal_id c.common.expected_version) _ h in
    let (going, h2) = guard-eq-ok (is_active d.status) _ _ h1 in
    let (fence, h3) =
      guard-eq-ok
        (not (is_automation c.common.actor.kind)
          || ports.fence_holds c.automation_epoch c.conversation_id d.id)
        _ _ h2 in
    let (to, derived, h4) =
      >>=-eq-ok (or_throw (derive_deal_stage d.stage c.direction) (conflict_error _)) _ h3 in
    let (g, gated, done) = >>=-eq-ok (gate_of c.direction ports d) _ h4 in
    record {
      found = ground (arith, locked-eq-ok r c.common.deal_id c.common.expected_version got);
      going = ground arith;
      derived = ground (arith, or_throw-eq-ok (derive_deal_stage d.stage c.direction) _ derived);
      fenced = λ automated. ground arith;
      unblocked = λ forward. ground (arith, gate_of-unblocked c.direction ports d gated forward);
      direction = ground arith;
      version = ground (arith, locked-version r c.common.deal_id c.common.expected_version got);
    }

pub prepare_loss-eq-ok :
    (r : DealRepo) (ports : Ports) (c : Input) {input : Loss}
    → prepare_loss r ports c ≡ ok input
    → (lookup c.deal_id r.deals ≡ some input.deal) × (is_active input.deal.status ≡ true)
unfolding prepare_loss
prepare_loss-eq-ok r ports c {input} h =
    let (d, got, h1) = >>=-eq-ok (locked r c.deal_id c.expected_version) _ h in
    let (going, h2) = guard-eq-ok (is_active d.status) _ _ h1 in
    (ground (arith, locked-eq-ok r c.deal_id c.expected_version got), ground arith)

-- What stands behind a transition that was made.
pub record Granted (ports : Ports) (c : TransitionInput) (r : DealRepo) (a : Answer) : Type 0 where
  pub deal : Deal
  pub found : lookup c.common.deal_id r.deals ≡ some deal
  pub going : is_active deal.status ≡ true
  pub expected : deal.version ≡ c.common.expected_version
  pub moves_one : derive_deal_stage deal.stage c.direction ≡ some a.deal.stage
  pub up : a.deal.version ≡ deal.version + 1
  pub fenced :
      is_automation c.common.actor.kind ≡ true
      → ports.fence_holds c.automation_epoch c.conversation_id deal.id ≡ true
  pub unblocked : c.direction ≡ advance → ports.blockers deal.id deal.stage ≡ some []

applied-deal :
    (r : DealRepo) (input : Transition) {t : DealRepo} {d : Deal}
    → lookup input.deal.id r.deals ≡ some input.deal
    → apply_transition r input ≡ ok (t, d)
    → moved input.deal input ≡ d
unfolding apply_transition
applied-deal r input here h = ground (arith, current_lem r input.deal here)

-- Where the deals stand under their ids, a transition that is made moves an active deal, at the
-- version that was expected, by one stage and one version; if an automation asked its fence held,
-- and an advance had an assessment without blockers.
pub transition_effect-eq-ok :
    (ports : Ports) (c : TransitionInput) (s t : State) (a : Answer)
    → IsKeyed s.repo
    → transition_effect ports c s ≡ (ok a, t)
    → Granted ports c s.repo a
unfolding transition_effect
transition_effect-eq-ok ports c s t a keyed h = tried (prepare_transition s.repo ports c) refl h
  where
    made :
        (input : Transition) (m : Result DealError (DealRepo × Deal))
        → apply_transition s.repo input ≡ m
        → Prepared s.repo ports c input
        → transitioned ports s c.common.correlation_id input m ≡ (ok a, t)
        → Granted ports c s.repo a
    made input (err e) applies p done = ground arith
    made input (ok (repo, d)) applies p done =
        let own = keyed.keyed c.common.deal_id input.deal p.found in
        let here = subst (λ x. lookup x s.repo.deals ≡ some input.deal) (sym own) p.found in
        let result = applied-deal s.repo input here applies in
        let answer : d ≡ a.deal = ground arith in
        record {
          deal = input.deal;
          found = p.found;
          going = p.going;
          expected = p.version;
          moves_one = ground (arith, p.derived, p.direction, result, answer);
          up = ground (arith, result, answer);
          fenced = p.fenced;
          unblocked = p.unblocked;
        }

    tried :
        (m : Result DealError Transition)
        → prepare_transition s.repo ports c ≡ m
        → attempt_transition ports s c.common.correlation_id m ≡ (ok a, t)
        → Granted ports c s.repo a
    tried (err e) prepared done = ground arith
    tried (ok input) prepared done =
        made input (apply_transition s.repo input) refl
          (prepare_transition-eq-ok s.repo ports c prepared) done
