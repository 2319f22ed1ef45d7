-- ===== src/Jobs/Rows.antt =====
-- The statements that the methods of `PostgresJobQueue` share, and the turns of their loops.
use crm_silmer.Base.{
  ltb, leb, text_eq, nat_eq, ◌==◌, if◌then◌else◌, is_some, Result, ok, guard, ◌>>=◌, ◌>>◌, Table,
  lookup, put, ℕ, ◌+◌, String, Bool, true, false, not, ◌&&◌, ◌||◌, Option, none, some, List, [],
  ◌∷◌,
}
use crm_silmer.Jobs.{
  JobStatus, processing, retry, completed, AttemptState, claimed, sending, JobError,
  constraint_violation, Job, Attempt, Event, Queue, is_waiting, is_processing, adjust, Expiry,
  decide_expired_attempt,
}

-- `UPDATE crm.channel_events … WHERE id AND disposition = 'process'`
abbrev pub mark_event : Option String → String → Queue → Queue
mark_event none status q = q
mark_event (some id) status q = record q {
  events =
      adjust id
        (λ (e : Event).
          if e.disposition == "process" then record e { processing_status = status } else e)
        q.events;
}

pub record Finish : Type 0 where
  pub error_code : Option String
  pub external_id : Option String
  pub finished_at : ℕ
  pub outcome : AttemptState
  pub retry_safe : Option Bool

abbrev pub finished : Finish → Attempt → Attempt
finished f a = record a {
  state = f.outcome;
  finished_at = some f.finished_at;
  heartbeat_at = f.finished_at;
  error_code = f.error_code;
  provider_external_id = f.external_id;
  retry_safe = f.retry_safe;
}

-- `finishAttempt`
unfoldable pub finish_attempt : String → Finish → Queue → Queue
finish_attempt id f q = record q { attempts = adjust id (finished f) q.attempts }

abbrev pub ended : JobStatus → ℕ → Option String → Job → Job
ended status now error_code j = record j {
  status = status;
  locked_by = none;
  locked_until = none;
  heartbeat_at = none;
  updated_at = now;
  completed_at = some now;
  last_error_code = error_code;
}

abbrev pub event_status : JobStatus → String
event_status completed = "processed"
event_status _ = "reconciliation"

-- `finishJob`, for the job that was selected.
unfoldable pub finish_job : String → Job → JobStatus → ℕ → Option String → Queue → Queue
finish_job id job status now error_code q =
    mark_event job.channel_event_id (event_status status)
      (record q { jobs = adjust id (ended status now error_code) q.jobs })

abbrev pub retried : ℕ → ℕ → String → Job → Job
retried available_at now error_code j = record j {
  status = retry;
  available_at = available_at;
  locked_by = none;
  locked_until = none;
  heartbeat_at = none;
  updated_at = now;
  last_error_code = some error_code;
}

-- The statements that put a job back, after a failure or an expired lease.
unfoldable pub retry_job : String → Job → ℕ → ℕ → String → Queue → Queue
retry_job id job available_at now error_code q =
    mark_event job.channel_event_id "pending"
      (record q { jobs = adjust id (retried available_at now error_code) q.jobs })

-- `insertReconciliation`: on a conflict it does nothing.
unfoldable pub insert_reconciliation : String → String → ℕ → Queue → Queue
insert_reconciliation job_id reason now q = record q {
  reconciliations =
      if is_some (lookup job_id q.reconciliations)
      then q.reconciliations
      else put job_id (record { created_at = now; reason = reason }) q.reconciliations;
}

-- The attempt of a number of a job, with its id.
unfoldable pub attempt_at : String → ℕ → Table Attempt → Option (String × Attempt)
attempt_at job_id number [] = none
attempt_at job_id number ((id, a) ∷ m) =
    if a.job_id == job_id && a.attempt_no == number
    then some (id, a)
    else attempt_at job_id number m

abbrev pub is_expired : ℕ → String → Job → Bool
is_expired now queue j =
    j.queue == queue
    && is_processing j.status
    && elim j.locked_until [ none ↦ false | some t ↦ leb t now ]

abbrev pub joined_state : Option (String × Attempt) → AttemptState
joined_state none = sending
joined_state (some (id, a)) = a.state

abbrev pub is_retry : JobStatus → Bool
is_retry retry = true
is_retry _ = false

abbrev pub finish_joined : Option (String × Attempt) → ℕ → Expiry → Queue → Queue
finish_joined none now d q = q
finish_joined (some (id, a)) now d q =
    finish_attempt id
      (record {
        error_code = some "WORKER_LEASE_EXPIRED";
        external_id = none;
        finished_at = now;
        outcome = d.outcome;
        retry_safe = some (is_retry d.status);
      })
      q

-- A retry has no reason for a person to look at.
abbrev pub settle_expired : String → Job → ℕ → JobStatus → Option String → Queue → Queue
settle_expired id job now status none q = retry_job id job now now "WORKER_LEASE_EXPIRED" q
settle_expired id job now status (some reason) q =
    insert_reconciliation id reason now
      (finish_job id job status now (some "WORKER_LEASE_EXPIRED") q)

abbrev pub recover_found : ℕ → String → Option Job → Queue → Result JobError Queue
recover_found now id none q = ok q
recover_found now id (some job) q = do
  let joined = attempt_at id job.attempt_count q.attempts
  d ← decide_expired_attempt job.attempt_count job.max_attempts (joined_state joined)
  ok (settle_expired id job now d.status d.reason (finish_joined joined now d q))

-- One turn of `#recoverExpired`. The selected rows are locked, so that a turn finds its row as it
-- was selected.
unfoldable pub recover_row : ℕ → Queue → String → Result JobError Queue
recover_row now q id = recover_found now id (lookup id q.jobs) q

pub record Claim : Type 0 where
  pub attempt_ids : String → String
  pub lease_ms : ℕ
  pub limit : ℕ
  pub now : ℕ
  pub queue : String
  pub worker_id : String

abbrev pub is_claimable : Claim → Job → Bool
is_claimable c j =
    j.queue == c.queue
    && is_waiting j.status
    && leb j.available_at c.now
    && ltb j.attempt_count j.max_attempts

abbrev pub locked : Claim → Job → Job
locked c j = record j {
  status = processing;
  attempt_count = j.attempt_count + 1;
  locked_by = some c.worker_id;
  locked_until = some (c.now + c.lease_ms);
  heartbeat_at = some c.now;
  updated_at = c.now;
  completed_at = none;
  last_error_code = none;
}

abbrev pub new_attempt : Claim → String → ℕ → Attempt
new_attempt c job_id number = record {
  attempt_no = number;
  effect_started_at = none;
  error_code = none;
  finished_at = none;
  heartbeat_at = c.now;
  job_id = job_id;
  provider = none;
  provider_external_id = none;
  retry_safe = none;
  started_at = c.now;
  state = claimed;
  worker_id = c.worker_id;
}

-- The unique keys of an attempt: its id, and its job with its number.
abbrev pub is_taken : String → String → ℕ → Table Attempt → Bool
is_taken id job_id number m = is_some (lookup id m) || is_some (attempt_at job_id number m)

abbrev pub claim_found : Claim → String → Option Job → Queue → Result JobError Queue
claim_found c id none q = ok q
claim_found c id (some job) q = do
  guard (not (is_taken (c.attempt_ids id) id (job.attempt_count + 1) q.attempts))
      constraint_violation
  ok (
      mark_event job.channel_event_id "processing" (record q {
        jobs = adjust id (locked c) q.jobs;
        attempts = put (c.attempt_ids id) (new_attempt c id (job.attempt_count + 1)) q.attempts;
      }))

-- One turn of the loop of `claim`.
unfoldable pub claim_row : Claim → Queue → String → Result JobError Queue
claim_row c q id = claim_found c id (lookup id q.jobs) q

-- `for (const row of rows)`, each turn with what the one before left.
abbrev pub each :
    (Queue → String → Result JobError Queue) → List String → Queue → Result JobError Queue
each f [] q = ok q
each f (id ∷ ids) q = f q id >>= each f ids
