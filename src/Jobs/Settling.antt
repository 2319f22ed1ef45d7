-- ===== src/Jobs/Settling.antt =====
-- `settle`: what a worker says of its attempt.
use crm_silmer.Base.{
  text_eq, nat_eq, ◌==◌, if◌then◌else◌, Result, ok, guard, ◌>>=◌, ◌>>◌, map_ok, lookup, ℕ, ◌+◌,
  String, Bool, true, false, ◌||◌, Option, none, some,
}
use crm_silmer.Jobs.{
  completed, dead_letter, outcome_unknown, AttemptState, sent, failed, unknown, JobError,
  type_error, Job, Attempt, Queue, is_live, Decision, retries, gives_up, decide_failed_attempt,
  calculate_retry_delay_ms, is_bounded,
}
use crm_silmer.Jobs.Rows.{Finish, finish_attempt, finish_job, retry_job, insert_reconciliation}
use crm_silmer.Jobs.Commands.{
  Lease, check_lease, owned_job, my_attempt, is_error_code, is_technical,
}

pub data Outcome : Type 0 where
  sends : Outcome
  is_unknown : Outcome
  fails : (retryable retry_safe : Bool) → Outcome

-- `jittered`, `base_ms` and `max_ms` are what the queue was made with.
pub record Settle : Type 0 where
  pub lease : Lease
  pub open lease use *
  pub base_ms : ℕ
  pub error_code : Option String
  pub external_id : Option String
  pub jittered : ℕ → ℕ
  pub max_ms : ℕ
  pub outcome : Outcome

abbrev pub or_code : Option String → String → String
or_code none fallback = fallback
or_code (some c) fallback = if c == "" then fallback else c

-- `value ? … : null`
abbrev pub or_null : Option String → Option String
or_null none = none
or_null (some x) = if x == "" then none else some x

abbrev pub finish_of : Settle → AttemptState → Option String → Option Bool → Finish
finish_of i state error_code retry_safe = record {
  error_code = error_code;
  external_id = or_null i.external_id;
  finished_at = i.lease.now;
  outcome = state;
  retry_safe = retry_safe;
}

-- A job that the failure leaves to a later attempt, or to a person.
abbrev pub settle_failed : Settle → Job → Decision → Queue → Result JobError Queue
settle_failed i job (gives_up reason) q = ok (
    insert_reconciliation i.lease.job_id reason i.lease.now (
      finish_job i.lease.job_id job dead_letter i.lease.now
        (some (or_code i.error_code "JOB_FAILED")) q))
settle_failed i job retries q = do
  delay ← calculate_retry_delay_ms i.jittered i.base_ms i.max_ms job.attempt_count
  ok (
      retry_job i.lease.job_id job (i.lease.now + delay) i.lease.now
        (or_code i.error_code "JOB_FAILED") q)

abbrev pub settle_owned : Settle → Job → Outcome → Queue → Result JobError Queue
settle_owned i job sends q = ok (
    finish_job i.lease.job_id job completed i.lease.now none
      (finish_attempt i.lease.attempt_id (finish_of i sent none none) q))
settle_owned i job is_unknown q = ok (
    insert_reconciliation i.lease.job_id "external_outcome_unknown" i.lease.now (
      finish_job i.lease.job_id job outcome_unknown i.lease.now
        (some (or_code i.error_code "OUTCOME_UNKNOWN"))
        (finish_attempt i.lease.attempt_id
          (finish_of i unknown (some (or_code i.error_code "OUTCOME_UNKNOWN")) (some false)) q)))
settle_owned i job (fails retryable retry_safe) q = do
  d ← decide_failed_attempt job.attempt_count job.max_attempts retryable retry_safe
  settle_failed i job d (
      finish_attempt i.lease.attempt_id
        (finish_of i failed (some (or_code i.error_code "JOB_FAILED")) (some retry_safe)) q)

abbrev pub is_valid_code : Option String → Bool
is_valid_code none = true
is_valid_code (some c) = c == "" || is_technical is_error_code c

abbrev pub is_valid_external : Option String → Bool
is_valid_external none = true
is_valid_external (some x) = x == "" || is_bounded x 512

abbrev pub settle_found :
    Settle → Option Job → Option Attempt → Queue → Result JobError (Bool × Queue)
settle_found i none a q = ok (false, q)
settle_found i (some job) none q = ok (false, q)
settle_found i (some job) (some a) q = do
  guard (is_valid_code i.error_code) type_error
  guard (is_valid_external i.external_id) type_error
  map_ok (λ (r : Queue). (true, r)) (settle_owned i job i.outcome q)

-- `settle`
unfoldable pub settle : Settle → Queue → Result JobError (Bool × Queue)
unfolding finish_job finish_attempt retry_job insert_reconciliation
settle i q = do
  check_lease i.lease
  settle_found i (owned_job i.lease (lookup i.lease.job_id q.jobs))
      (my_attempt i.lease is_live (lookup i.lease.attempt_id q.attempts)) q
