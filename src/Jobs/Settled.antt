-- ===== src/Jobs/Settled.antt =====
-- `settle` keeps the rows safe.
use crm_silmer.Base.{
  Result, ok, err, map_ok, >>=-eq-ok, ok-injective, guard-eq-ok, lookup, ℕ, ◌+◌, String, ◌≡◌, refl,
  ap, subst, Bool, true, false, Option, none, some, arith,
}
use crm_silmer.Jobs.{
  JobStatus, completed, dead_letter, outcome_unknown, sent, failed, unknown, JobError, Job, Attempt,
  Queue, is_waiting, is_live, Decision, retries, gives_up, decide_failed_attempt,
  calculate_retry_delay_ms,
}
use crm_silmer.Jobs.Rows.{
  Finish, finished, finish_attempt, ended, event_status, finish_job, retried, retry_job,
  insert_reconciliation,
}
use crm_silmer.Jobs.Commands.{check_lease, owned_job, my_attempt}
use crm_silmer.Jobs.Settling.{
  Outcome, sends, is_unknown, fails, Settle, or_code, finish_of, settle_failed, settle_owned,
  is_valid_code, is_valid_external, settle_found, settle,
}
use crm_silmer.Jobs.Safe.{is_failed, is_true, fits, safe-fits}
use crm_silmer.Jobs.Expired.{mark_event-jobs, mark_event-attempts, AreSafe}
use crm_silmer.Jobs.Leases.{Held, live-is_current, held, held-fits, held-IsSafe}

ended-fits :
    (a : Attempt) (j : Job) (status : JobStatus) (now : ℕ) (code : Option String) (f : Finish)
    → is_waiting status ≡ false
    → is_live f.outcome ≡ false
    → a.attempt_no ≡ j.attempt_count
    → fits a j ≡ true
    → fits (finished f a) (ended status now code j) ≡ true
unfolding fits
ended-fits a j status now code f quiet dead current fit = ground arith

retried-fits :
    (a : Attempt) (j : Job) (at now : ℕ) (code : String) (f : Finish)
    → is_failed f.outcome ≡ true
    → is_true f.retry_safe ≡ true
    → fits a j ≡ true
    → fits (finished f a) (retried at now code j) ≡ true
unfolding fits
retried-fits a j at now code f over safe fit =
    safe-fits (finished f a) (retried at now code j) (ground arith) (ground arith)

-- A job is put back only after a failure that is safe to retry.
retries-is_safe :
    (n m : ℕ) (retryable retry_safe : Bool)
    → decide_failed_attempt n m retryable retry_safe ≡ ok retries
    → retry_safe ≡ true
unfolding decide_failed_attempt
retries-is_safe n m retryable retry_safe h = ground arith

mapped-AreSafe :
    (m : Result JobError Queue) {done : Bool} {t : Queue}
    → ((r : Queue) → m ≡ ok r → AreSafe r)
    → map_ok {B = Bool × Queue} (λ (r : Queue). (true, r)) m ≡ ok (done, t)
    → AreSafe t
mapped-AreSafe (err e) keeps h = cc
mapped-AreSafe (ok r) keeps h =
    subst AreSafe (ap (λ (p : Bool × Queue). p.1) (ok-injective h)) (keeps r refl)

module _ (i : Settle) (q : Queue) (j : Job) (a : Attempt) (h : Held i.lease q j a)
    (s : AreSafe q) where
  ended-AreSafe :
      (status : JobStatus) (code : Option String) (f : Finish)
      → is_waiting status ≡ false
      → is_live f.outcome ≡ false
      → AreSafe (
          finish_job i.lease.job_id j status i.lease.now code
            (finish_attempt i.lease.attempt_id f q))
  unfolding finish_job finish_attempt
  ended-AreSafe status code f quiet dead =
      rw
        (
          mark_event-jobs j.channel_event_id (event_status status) _,
          mark_event-attempts j.channel_event_id (event_status status) _,
        )
        (held-IsSafe i.lease q j a h s (ended status i.lease.now code) (finished f)
          (λ b. (refl, refl)) refl refl
          (ended-fits a j status i.lease.now code f quiet dead
            (live-is_current a j (held-fits i.lease q j a h s) h.live)))

  retried-AreSafe :
      (at : ℕ) (code : String) (f : Finish)
      → is_failed f.outcome ≡ true
      → is_true f.retry_safe ≡ true
      → AreSafe
          (retry_job i.lease.job_id j at i.lease.now code (finish_attempt i.lease.attempt_id f q))
  unfolding retry_job finish_attempt
  retried-AreSafe at code f over safe =
      rw
        (
          mark_event-jobs j.channel_event_id "pending" _,
          mark_event-attempts j.channel_event_id "pending" _,
        )
        (held-IsSafe i.lease q j a h s (retried at i.lease.now code) (finished f)
          (λ b. (refl, refl)) refl refl (retried-fits a j at i.lease.now code f over safe))

  failed-AreSafe :
      (retryable retry_safe : Bool) (d : Decision) {t : Queue}
      → decide_failed_attempt j.attempt_count j.max_attempts retryable retry_safe ≡ ok d
      → settle_failed i j d (
          finish_attempt i.lease.attempt_id
            (finish_of i failed (some (or_code i.error_code "JOB_FAILED")) (some retry_safe))
            q)
        ≡ ok t
      → AreSafe t
  unfolding insert_reconciliation
  failed-AreSafe retryable retry_safe (gives_up reason) decided e = subst AreSafe (ok-injective e) (
      ended-AreSafe dead_letter (some (or_code i.error_code "JOB_FAILED"))
        (finish_of i failed (some (or_code i.error_code "JOB_FAILED")) (some retry_safe)) refl refl)
  failed-AreSafe retryable retry_safe retries decided e =
      let (delay, calculated, done) =
        >>=-eq-ok (calculate_retry_delay_ms i.jittered i.base_ms i.max_ms j.attempt_count) _ e in
      subst AreSafe (ok-injective done) (
        retried-AreSafe (i.lease.now + delay) (or_code i.error_code "JOB_FAILED")
          (finish_of i failed (some (or_code i.error_code "JOB_FAILED")) (some retry_safe)) refl
          (retries-is_safe j.attempt_count j.max_attempts retryable retry_safe decided))

  settle_owned-AreSafe :
      (outcome : Outcome) {t : Queue} → settle_owned i j outcome q ≡ ok t → AreSafe t
  unfolding insert_reconciliation
  settle_owned-AreSafe sends e =
      subst AreSafe (ok-injective e)
        (ended-AreSafe completed none (finish_of i sent none none) refl refl)
  settle_owned-AreSafe is_unknown e = subst AreSafe (ok-injective e) (
      ended-AreSafe outcome_unknown (some (or_code i.error_code "OUTCOME_UNKNOWN"))
        (finish_of i unknown (some (or_code i.error_code "OUTCOME_UNKNOWN")) (some false)) refl
        refl)
  settle_owned-AreSafe (fails retryable retry_safe) e =
      let (d, decided, done) =
        >>=-eq-ok (decide_failed_attempt j.attempt_count j.max_attempts retryable retry_safe) _ e in
      failed-AreSafe retryable retry_safe d decided done

settle_found-AreSafe :
    (i : Settle) (q : Queue) (o : Option Job) (p : Option Attempt) {done : Bool} {t : Queue}
    → owned_job i.lease (lookup i.lease.job_id q.jobs) ≡ o
    → my_attempt i.lease is_live (lookup i.lease.attempt_id q.attempts) ≡ p
    → AreSafe q
    → settle_found i o p q ≡ ok (done, t)
    → AreSafe t
settle_found-AreSafe i q none p h k s e =
    subst AreSafe (ap (λ (r : Bool × Queue). r.1) (ok-injective e)) s
settle_found-AreSafe i q (some j) none h k s e =
    subst AreSafe (ap (λ (r : Bool × Queue). r.1) (ok-injective e)) s
settle_found-AreSafe i q (some j) (some a) h k s e =
    let (codes, rest) = guard-eq-ok (is_valid_code i.error_code) _ _ e in
    let (external, settled) = guard-eq-ok (is_valid_external i.external_id) _ _ rest in
    mapped-AreSafe (settle_owned i j i.outcome q)
      (λ t owned.
        settle_owned-AreSafe i q j a (held i.lease q is_live (λ t e. e) h k) s i.outcome owned)
      settled

pub settle-AreSafe :
    (i : Settle) (q : Queue) {done : Bool} {t : Queue}
    → AreSafe q
    → settle i q ≡ ok (done, t)
    → AreSafe t
unfolding settle
settle-AreSafe i q s h =
    let (u, checked, e) = >>=-eq-ok (check_lease i.lease) _ h in
    settle_found-AreSafe i q _ _ refl refl s e
