-- ===== src/Jobs/Tests.antt =====
-- Runs of the queue on small inputs, and the instances of its theorems.
use crm_silmer.Base.{
  leb, text_eq, nat_eq, ◌==◌, Bool-cases, ok, lookup, put, ℕ, ◌≤◌, String, ◌≡◌, refl, inl, inr,
  true, false, none, some, List, [], ◌∷◌, ◌++◌, arith,
}
use crm_silmer.Jobs.{
  pending, processing, outcome_unknown, sending, failed, unknown, Job, Attempt, Queue, adjust,
  decide_failed_attempt, decide_expired_attempt, calculate_retry_delay_ms,
}
use crm_silmer.Jobs.Rows.{
  finish_attempt, finish_job, retry_job, insert_reconciliation, attempt_at, is_expired, recover_row,
  Claim, claim_row,
}
use crm_silmer.Jobs.Commands.{
  Database, expired_ids, recover_expired, claimable_ids, check_claim, claim, Lease, heartbeat,
  every_code, mark_effect_started,
}
use crm_silmer.Jobs.Settling.{fails, Settle, settle}
use crm_silmer.Jobs.Runs.{
  Call, claims, starts, settles, execute, run, IsReady, run-one_at_a_time, run-repeats_are_safe,
  run-attempts_are_bounded,
}
use crm_silmer.Jobs.Recovered.{claim-ends_leases}

abbrev database : Database
database = record { is_free = λ _. true; text_le = λ _ _. true }

abbrev waiting_job : Job
waiting_job = record {
  attempt_count = 0;
  available_at = 1000;
  channel_event_id = none;
  completed_at = none;
  heartbeat_at = none;
  last_error_code = none;
  locked_by = none;
  locked_until = none;
  max_attempts = 3;
  priority = 100;
  queue = "default";
  status = pending;
  updated_at = 1000;
}

abbrev ready : Queue
ready = record {
  attempts = [];
  events = [];
  jobs = ("job", waiting_job) ∷ [];
  reconciliations = [];
}

abbrev claim_at : ℕ → String → String → Claim
claim_at now worker attempt = record {
  attempt_ids = λ _. attempt;
  lease_ms = 30000;
  limit = 1;
  now = now;
  queue = "default";
  worker_id = worker;
}

abbrev lease_at : ℕ → String → String → Lease
lease_at now worker attempt = record {
  attempt_id = attempt;
  job_id = "job";
  now = now;
  worker_id = worker;
}

abbrev failing : Settle
failing = record {
  lease = lease_at 6000 "ana" "one";
  base_ms = 1000;
  error_code = none;
  external_id = none;
  jittered = λ n. n;
  max_ms = 300000;
  outcome = fails true true;
}

-- The first attempt fails safely, a second one follows it and starts its effect.
abbrev two_attempts : List Call
two_attempts =
    claims database (claim_at 5000 "ana" "one")
    ∷ settles failing
    ∷ claims database (claim_at 9000 "bia" "two")
    ∷ starts (lease_at 9500 "bia" "two") "meta"
    ∷ []

abbrev first_attempt : Attempt
first_attempt = record {
  attempt_no = 1;
  effect_started_at = none;
  error_code = some "JOB_FAILED";
  finished_at = some 6000;
  heartbeat_at = 6000;
  job_id = "job";
  provider = none;
  provider_external_id = none;
  retry_safe = some true;
  started_at = 5000;
  state = failed;
  worker_id = "ana";
}

abbrev second_attempt : Attempt
second_attempt = record {
  attempt_no = 2;
  effect_started_at = some 9500;
  error_code = none;
  finished_at = none;
  heartbeat_at = 9500;
  job_id = "job";
  provider = some "meta";
  provider_external_id = none;
  retry_safe = none;
  started_at = 9000;
  state = sending;
  worker_id = "bia";
}

run-attempts :
    (run ready two_attempts).attempts ≡ ("one", first_attempt) ∷ ("two", second_attempt) ∷ []
unfolding run execute claim recover_expired claim_row recover_row check_claim expired_ids
    claimable_ids settle heartbeat mark_effect_started lookup adjust put attempt_at
    decide_failed_attempt calculate_retry_delay_ms finish_attempt finish_job retry_job
    insert_reconciliation every_code
run-attempts = refl

-- When the second lease ends, the next claim leaves the job to a person.
run-recovery :
    lookup "job"
      (run ready
        (two_attempts ++ claims database (claim_at 99000 "caio" "three") ∷ [])).reconciliations
    ≡ some (record { created_at = 99000; reason = "lease_expired_after_effect_started" })
unfolding run execute claim recover_expired claim_row recover_row check_claim expired_ids
    claimable_ids settle heartbeat mark_effect_started lookup adjust put attempt_at
    decide_failed_attempt calculate_retry_delay_ms finish_attempt finish_job retry_job
    insert_reconciliation every_code decide_expired_attempt
run-recovery = refl

ready-IsReady : IsReady ready
unfolding lookup
ready-IsReady = record {
  keyed = (refl, tt);
  unattempted = refl;
  within = λ id j h. ready-within id j h;
}
  where
    ready-within :
        (id : String) (j : Job)
        → lookup id ready.jobs ≡ some j
        → leb j.attempt_count j.max_attempts ≡ true
    ready-within id j h = elim (Bool-cases ("job" == id)) [
      | inl this ↦ ground arith
      | inr other ↦ absurd (ground arith)
    ]

first-found : lookup "one" (run ready two_attempts).attempts ≡ some first_attempt
unfolding lookup
first-found = rw run-attempts refl

second-found : lookup "two" (run ready two_attempts).attempts ≡ some second_attempt
unfolding lookup
second-found = rw run-attempts refl

run-one_at_a_time_example : ◌≡◌ {A = String} "two" "two"
run-one_at_a_time_example =
    run-one_at_a_time two_attempts ready "two" "two" second_attempt second_attempt ready-IsReady
      second-found second-found refl refl refl

run-repeats_are_safe_example :
    (first_attempt.state ≡ failed) × (first_attempt.retry_safe ≡ some true)
run-repeats_are_safe_example =
    run-repeats_are_safe two_attempts ready "one" "two" first_attempt second_attempt ready-IsReady
      first-found second-found refl (omega arith)

run-attempts_are_bounded_example :
    (j : Job) × (lookup "job" (run ready two_attempts).jobs ≡ some j)
    × (second_attempt.attempt_no ≤ j.max_attempts)
run-attempts_are_bounded_example =
    run-attempts_are_bounded two_attempts ready "two" second_attempt ready-IsReady second-found

abbrev ended_job : Job
ended_job = record waiting_job {
  attempt_count = 2;
  completed_at = some 99000;
  last_error_code = some "WORKER_LEASE_EXPIRED";
  status = outcome_unknown;
  updated_at = 99000;
}

abbrev held_queue : Queue
held_queue = record ready {
  attempts = ("two", second_attempt) ∷ [];
  jobs =
      (
        "job",
        record waiting_job {
          attempt_count = 2;
          locked_by = some "bia";
          locked_until = some 39000;
          status = processing;
        },
      )
      ∷ [];
}

abbrev left_queue : Queue
left_queue = record ready {
  attempts =
      (
        "two",
        record second_attempt {
          error_code = some "WORKER_LEASE_EXPIRED";
          finished_at = some 99000;
          heartbeat_at = 99000;
          retry_safe = some false;
          state = unknown;
        },
      )
      ∷ [];
  jobs = ("job", ended_job) ∷ [];
  reconciliations =
      ("job", record { created_at = 99000; reason = "lease_expired_after_effect_started" }) ∷ [];
}

claim-left : claim database (claim_at 99000 "caio" "three") held_queue ≡ ok ([], left_queue)
unfolding claim recover_expired claim_row recover_row check_claim expired_ids claimable_ids lookup
    adjust put attempt_at decide_expired_attempt finish_attempt finish_job retry_job
    insert_reconciliation
claim-left = refl

left-found : lookup "job" left_queue.jobs ≡ some ended_job
unfolding lookup
left-found = refl

claim-ends_leases_example : is_expired 99000 "default" ended_job ≡ false
claim-ends_leases_example =
    claim-ends_leases database (claim_at 99000 "caio" "three") held_queue left_queue [] "job"
      ended_job claim-left refl left-found
