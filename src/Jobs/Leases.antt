-- ===== src/Jobs/Leases.antt =====
-- What a worker does with its lease keeps the rows safe: `heartbeat`, `markEffectStarted` and
-- `settle` act on the current attempt of a job that the worker holds.
use crm_silmer.Base.{
  ltb, Bool-cases, ok, >>=-eq-ok, ok-injective, guard-eq-ok, lookup, ℕ, ◌+◌, String, ◌≡◌, refl, sym,
  ap, subst, inl, inr, Bool, true, ◌&&◌, Option, none, some, arith, eq_iff,
}
use crm_silmer.Jobs.{
  AttemptState, claimed, sending, sent, failed, unknown, Job, Attempt, Queue, is_live, adjust,
  is_bounded,
}
use crm_silmer.Jobs.Commands.{
  Lease, check_lease, is_owned, is_mine, owned_job, my_attempt, beaten, beat_found, heartbeat,
  is_claimed, is_provider_code, is_technical, started, start_found, start_owned,
  mark_effect_started,
}
use crm_silmer.Jobs.Tables.{adjust_self}
use crm_silmer.Jobs.Safe.{fits, IsSafe, KeepsKeys}
use crm_silmer.Jobs.Turns.{finish-IsSafe}
use crm_silmer.Jobs.Expired.{AreSafe}

-- The job and the attempt of a lease that is still good.
pub record Held (l : Lease) (q : Queue) (j : Job) (a : Attempt) : Type 0 where
  pub at_job : lookup l.job_id q.jobs ≡ some j
  pub at_attempt : lookup l.attempt_id q.attempts ≡ some a
  pub holds : is_owned l j ≡ true
  pub mine : is_mine l a ≡ true
  pub live : is_live a.state ≡ true

owned_job-eq-some :
    (l : Lease) (o : Option Job) {j : Job}
    → owned_job l o ≡ some j
    → (o ≡ some j) × (is_owned l j ≡ true)
owned_job-eq-some l none h = cc
owned_job-eq-some l (some k) {j} h = elim (Bool-cases (is_owned l k)) [
  | inl held ↦ ground arith
  | inr lost ↦ absurd (ground arith)
]

my_attempt-eq-some :
    (l : Lease) (test : AttemptState → Bool) (o : Option Attempt) {a : Attempt}
    → my_attempt l test o ≡ some a
    → (o ≡ some a) × (is_mine l a ≡ true) × (test a.state ≡ true)
my_attempt-eq-some l test none h = cc
my_attempt-eq-some l test (some b) {a} h = elim (Bool-cases (is_mine l b && test b.state)) [
  | inl held ↦ ground arith
  | inr lost ↦ absurd (ground arith)
]

-- A live attempt is the current one.
pub live-is_current :
    (a : Attempt) (j : Job)
    → fits a j ≡ true
    → is_live a.state ≡ true
    → a.attempt_no ≡ j.attempt_count
unfolding fits
live-is_current a j h live = ground arith

pub held :
    (l : Lease) (q : Queue) (test : AttemptState → Bool) {j : Job} {a : Attempt}
    → ((t : AttemptState) → test t ≡ true → is_live t ≡ true)
    → owned_job l (lookup l.job_id q.jobs) ≡ some j
    → my_attempt l test (lookup l.attempt_id q.attempts) ≡ some a
    → Held l q j a
held l q test narrow h k =
    let (at_job, holds) = owned_job-eq-some l _ h in
    let (at_attempt, mine, fine) = my_attempt-eq-some l test _ k in
    record {
      at_job = at_job;
      at_attempt = at_attempt;
      holds = holds;
      mine = mine;
      live = narrow _ fine;
    }

module _ (l : Lease) (q : Queue) (j : Job) (a : Attempt) (h : Held l q j a) (s : AreSafe q) where
  own : a.job_id ≡ l.job_id
  own = ground (arith, h.mine, eq_iff a.job_id l.job_id)

  pub held-fits : fits a j ≡ true
  held-fits =
      s.fitting l.attempt_id a j h.at_attempt
        (subst (λ x. lookup x q.jobs ≡ some j) (sym own) h.at_job)

  pub held-IsSafe :
      (g : Job → Job) (f : Attempt → Attempt)
      → KeepsKeys f
      → (g j).attempt_count ≡ j.attempt_count
      → (g j).max_attempts ≡ j.max_attempts
      → (fits a j ≡ true → fits (f a) (g j) ≡ true)
      → IsSafe (adjust l.job_id g q.jobs) (adjust l.attempt_id f q.attempts)
  held-IsSafe g f keys same_count same_max fitting =
      finish-IsSafe q.jobs q.attempts l.job_id j h.at_job s l.attempt_id a h.at_attempt own
        (live-is_current a j held-fits h.live) g f keys same_count same_max (fitting held-fits)

beats-AreSafe :
    (l : Lease) (n : ℕ) (q : Queue) (o : Option Job) (p : Option Attempt)
    → owned_job l (lookup l.job_id q.jobs) ≡ o
    → my_attempt l is_live (lookup l.attempt_id q.attempts) ≡ p
    → AreSafe q
    → AreSafe (beat_found l n o p q).1
unfolding fits
beats-AreSafe l n q none p h k s = s
beats-AreSafe l n q (some j) none h k s = s
beats-AreSafe l n q (some j) (some a) h k s =
    held-IsSafe l q j a (held l q is_live (λ t e. e) h k) s (beaten l.now (l.now + n))
      (λ (b : Attempt). record b { heartbeat_at = l.now }) (λ b. (refl, refl)) refl refl
      (λ fit. fit)

pub heartbeat-AreSafe :
    (l : Lease) (n : ℕ) (q : Queue) {done : Bool} {t : Queue}
    → AreSafe q
    → heartbeat l n q ≡ ok (done, t)
    → AreSafe t
unfolding heartbeat
heartbeat-AreSafe l n q s h =
    let (positive, checking) = guard-eq-ok (ltb 0 n) _ _ h in
    let (u, checked, e) = >>=-eq-ok (check_lease l) _ checking in
    subst AreSafe (ap (λ (r : Bool × Queue). r.1) (ok-injective e))
      (beats-AreSafe l n q _ _ refl refl s)

claimed-is_live : (t : AttemptState) → is_claimed t ≡ true → is_live t ≡ true
claimed-is_live claimed h = refl
claimed-is_live sending h = cc
claimed-is_live sent h = cc
claimed-is_live failed h = cc
claimed-is_live unknown h = cc

-- A live attempt fits its job with any other live state.
started-fits :
    (a : Attempt) (j : Job) (provider : String) (now : ℕ)
    → is_live a.state ≡ true
    → fits a j ≡ true
    → fits (started provider now a) j ≡ true
unfolding fits
started-fits a j provider now live fit = ground arith

starts-AreSafe :
    (l : Lease) (provider : String) (q : Queue) (j : Job) (p : Option Attempt)
    → owned_job l (lookup l.job_id q.jobs) ≡ some j
    → my_attempt l is_claimed (lookup l.attempt_id q.attempts) ≡ p
    → AreSafe q
    → AreSafe (start_found l provider p q).1
starts-AreSafe l provider q j none h k s = s
starts-AreSafe l provider q j (some a) h k s =
    subst (λ t. IsSafe t (adjust l.attempt_id (started provider l.now) q.attempts))
      (adjust_self l.job_id q.jobs)
      (held-IsSafe l q j a (held l q is_claimed claimed-is_live h k) s (λ j. j)
        (started provider l.now) (λ b. (refl, refl)) refl refl
        (started-fits a j provider l.now
          (claimed-is_live a.state (my_attempt-eq-some l is_claimed _ k).2)))

start_owned-AreSafe :
    (l : Lease) (provider : String) (q : Queue) (o : Option Job) {done : Bool} {t : Queue}
    → owned_job l (lookup l.job_id q.jobs) ≡ o
    → AreSafe q
    → start_owned l provider o q ≡ ok (done, t)
    → AreSafe t
start_owned-AreSafe l provider q none found s h =
    subst AreSafe (ap (λ (r : Bool × Queue). r.1) (ok-injective h)) s
start_owned-AreSafe l provider q (some j) found s h =
    let (bounded, technical) = guard-eq-ok (is_bounded l.attempt_id 128) _ _ h in
    let (_t, e) = guard-eq-ok (is_technical is_provider_code provider) _ _ technical in
    subst AreSafe (ap (λ (r : Bool × Queue). r.1) (ok-injective e))
      (starts-AreSafe l provider q j _ found refl s)

pub mark_effect_started-AreSafe :
    (l : Lease) (provider : String) (q : Queue) {done : Bool} {t : Queue}
    → AreSafe q
    → mark_effect_started l provider q ≡ ok (done, t)
    → AreSafe t
unfolding mark_effect_started
mark_effect_started-AreSafe l provider q s h =
    let (job, rest) = guard-eq-ok (is_bounded l.job_id 128) _ _ h in
    let (worker, started) = guard-eq-ok (is_bounded l.worker_id 128) _ _ rest in
    start_owned-AreSafe l provider q _ refl s started
