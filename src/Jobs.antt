-- ===== src/Jobs.antt =====
-- modules/integration-reliability/src/postgres-job-queue.js: the outbox jobs, their attempts and
-- the reconciliation items, as the SQL statements of the queue change them. Each method is one
-- transaction. Times are milliseconds; the ids that `randomUUID` makes, the collation of the
-- database, the rows that other transactions lock and the random factor are arguments.
pub mod Rows
pub mod Commands
pub mod Settling
pub mod Tables
pub mod Safe
pub mod Turns
pub mod Expired
pub mod Selected
pub mod Claims
pub mod Leases
pub mod Settled
pub mod Runs
pub mod Recovered
mod Tests
use Prim.Native.String.{len}
use crm_silmer.Base.{
  ltb, leb, text_eq, nat_eq, ◌==◌, if◌then◌else◌, Result, ok, guard, ◌>>=◌, ◌>>◌, map_ok, Table, ℕ,
  ◌-◌, ◌*◌, ◌^◌, String, Bool, true, false, not, ◌&&◌, Option, none, some, [], ◌∷◌,
}

pub data JobStatus : Type 0 where
  pending processing retry completed dead_letter outcome_unknown : JobStatus

pub data AttemptState : Type 0 where
  claimed sending sent failed unknown : AttemptState

pub data JobError : Type 0 where
  type_error constraint_violation : JobError

pub record Job : Type 0 where
  pub attempt_count : ℕ
  pub available_at : ℕ
  pub channel_event_id : Option String
  pub completed_at : Option ℕ
  pub heartbeat_at : Option ℕ
  pub last_error_code : Option String
  pub locked_by : Option String
  pub locked_until : Option ℕ
  pub max_attempts : ℕ
  pub priority : ℕ
  pub queue : String
  pub status : JobStatus
  pub updated_at : ℕ

pub record Attempt : Type 0 where
  pub attempt_no : ℕ
  pub effect_started_at : Option ℕ
  pub error_code : Option String
  pub finished_at : Option ℕ
  pub heartbeat_at : ℕ
  pub job_id : String
  pub provider : Option String
  pub provider_external_id : Option String
  pub retry_safe : Option Bool
  pub started_at : ℕ
  pub state : AttemptState
  pub worker_id : String

pub record Event : Type 0 where
  pub disposition : String
  pub processing_status : String

pub record Reconciliation : Type 0 where
  pub created_at : ℕ
  pub reason : String

-- The rows by their ids; a reconciliation item by its job, which is unique.
pub record Queue : Type 0 where
  pub attempts : Table Attempt
  pub events : Table Event
  pub jobs : Table Job
  pub reconciliations : Table Reconciliation

abbrev pub is_waiting : JobStatus → Bool
is_waiting pending = true
is_waiting retry = true
is_waiting _ = false

abbrev pub is_processing : JobStatus → Bool
is_processing processing = true
is_processing _ = false

abbrev pub is_live : AttemptState → Bool
is_live claimed = true
is_live sending = true
is_live _ = false

-- `UPDATE … WHERE id`
unfoldable pub adjust {ℓ} : {V : Type ℓ} → String → (V → V) → Table V → Table V
adjust k f [] = []
adjust k f ((j, v) ∷ m) = if j == k then (j, f v) ∷ m else (j, v) ∷ adjust k f m

-- What a failed attempt makes of its job, and why a person has to look at it.
pub data Decision : Type 0 where
  retries : Decision
  gives_up : (reason : String) → Decision

-- `decideFailedAttempt`
unfoldable pub decide_failed_attempt :
    (attempt_count max_attempts : ℕ) (retryable retry_safe : Bool) → Result JobError Decision
decide_failed_attempt attempt_count max_attempts retryable retry_safe = do
  guard (ltb 0 attempt_count) type_error
  guard (ltb 0 max_attempts) type_error
  ok (
      if not retryable
      then gives_up "non_retryable_failure"
      else if not retry_safe
      then gives_up "unsafe_retry"
      else if leb max_attempts attempt_count
      then gives_up "attempts_exhausted"
      else retries)

-- The state that `decideExpiredAttempt` gives the attempt, the job's status and the reason.
pub record Expiry : Type 0 where
  pub outcome : AttemptState
  pub reason : Option String
  pub status : JobStatus

abbrev pub expiry_of : Decision → Expiry
expiry_of retries = record { outcome = failed; reason = none; status = retry }
expiry_of (gives_up reason) = record {
  outcome = failed;
  reason = some reason;
  status = dead_letter;
}

-- `decideExpiredAttempt`
unfoldable pub decide_expired_attempt :
    (attempt_count max_attempts : ℕ) → AttemptState → Result JobError Expiry
unfolding decide_failed_attempt
decide_expired_attempt attempt_count max_attempts sending = ok (record {
  outcome = unknown;
  reason = some "lease_expired_after_effect_started";
  status = outcome_unknown;
})
decide_expired_attempt attempt_count max_attempts _ =
    map_ok expiry_of (decide_failed_attempt attempt_count max_attempts true true)

abbrev pub min : ℕ → ℕ → ℕ
min a b = if leb a b then a else b

abbrev pub max : ℕ → ℕ → ℕ
max a b = if leb a b then b else a

-- `calculateRetryDelayMs`; `jittered` rounds the product of the delay with the random factor.
unfoldable pub calculate_retry_delay_ms :
    (jittered : ℕ → ℕ) (base_ms max_ms attempt_count : ℕ) → Result JobError ℕ
calculate_retry_delay_ms jittered base_ms max_ms attempt_count = do
  guard (ltb 0 attempt_count) type_error
  guard (ltb 0 base_ms) type_error
  guard (ltb 0 max_ms) type_error
  ok (min max_ms (max 1 (jittered (min max_ms (base_ms * 2 ^ (attempt_count - 1))))))

-- `boundedString`, in UTF-16 units where the text has no others.
abbrev pub is_bounded : String → ℕ → Bool
is_bounded s maximum = ltb 0 (len s) && leb (len s) maximum
