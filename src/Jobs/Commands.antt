-- ===== src/Jobs/Commands.antt =====
-- The methods of `PostgresJobQueue`: `claim`, `heartbeat`, and `markEffectStarted`.
use Prim.Native.Char.{code}
use crm_silmer.Base.{
  ltb, leb, text_eq, nat_eq, ◌==◌, if◌then◌else◌, is_text, Result, ok, guard, ◌>>=◌, ◌>>◌, keep,
  Table, lookup, sort, ℕ, zero, suc, ◌+◌, String, Bool, true, false, ◌&&◌, ◌||◌, Option, none, some,
  List, [], ◌∷◌,
}
use crm_silmer.Jobs.{
  AttemptState, claimed, sending, JobError, type_error, Job, Attempt, Queue, is_processing, is_live,
  adjust, is_bounded,
}
use crm_silmer.Jobs.Rows.{is_expired, recover_row, Claim, is_claimable, claim_row, each}

-- What the transactions of others leave to this one, and how the database orders texts.
pub record Database : Type 0 where
  pub is_free : String → Bool
  pub text_le : String → String → Bool

abbrev pub Row : Type 0
Row = String × Job

abbrev pub ids_of : List Row → List String
ids_of [] = []
ids_of ((id, j) ∷ rows) = id ∷ ids_of rows

abbrev pub take : ℕ → List Row → List Row
take n [] = []
take zero (r ∷ rows) = []
take (suc n) (r ∷ rows) = r ∷ take n rows

abbrev pub lock_end : Job → ℕ
lock_end j = elim j.locked_until [ none ↦ 0 | some t ↦ t ]

-- `ORDER BY locked_until, id`
abbrev pub expires_first : Database → Row → Row → Bool
expires_first db (i, j) (k, l) =
    ltb (lock_end j) (lock_end l) || lock_end j == lock_end l && db.text_le i k

-- `ORDER BY priority, available_at, id`
abbrev pub runs_first : Database → Row → Row → Bool
runs_first db (i, j) (k, l) =
    ltb j.priority l.priority
    || j.priority == l.priority
      && (ltb j.available_at l.available_at || j.available_at == l.available_at && db.text_le i k)

-- The rows that `FOR UPDATE SKIP LOCKED` hands out.
abbrev pub is_picked : Database → (Job → Bool) → Row → Bool
is_picked db test (id, j) = db.is_free id && test j

unfoldable pub expired_ids : Database → Claim → Table Job → List String
expired_ids db c jobs =
    ids_of (sort (expires_first db) (keep (is_picked db (is_expired c.now c.queue)) jobs))

-- `#recoverExpired`
unfoldable pub recover_expired : Database → Claim → Queue → Result JobError Queue
recover_expired db c q = each (recover_row c.now) (expired_ids db c q.jobs) q

unfoldable pub claimable_ids : Database → Claim → Table Job → List String
claimable_ids db c jobs =
    ids_of (take c.limit (sort (runs_first db) (keep (is_picked db (is_claimable c)) jobs)))

unfoldable pub check_claim : Claim → Result JobError (Unit {0})
check_claim c = do
  guard (is_bounded c.worker_id 128) type_error
  guard (is_bounded c.queue 64) type_error
  guard (ltb 0 c.lease_ms) type_error
  guard (ltb 0 c.limit) type_error
  guard (leb c.limit 100) type_error

-- `claim`: the ids of the jobs that the worker got.
unfoldable pub claim : Database → Claim → Queue → Result JobError (List String × Queue)
claim db c q = do
  check_claim c
  recovered ← recover_expired db c q
  let ids = claimable_ids db c recovered.jobs
  r ← each (claim_row c) ids recovered
  ok (ids, r)

-- Who calls, and for which attempt of which job.
pub record Lease : Type 0 where
  pub attempt_id : String
  pub job_id : String
  pub now : ℕ
  pub worker_id : String

abbrev pub check_lease : Lease → Result JobError (Unit {0})
check_lease l = do
  guard (is_bounded l.job_id 128) type_error
  guard (is_bounded l.worker_id 128) type_error
  guard (is_bounded l.attempt_id 128) type_error

-- `locked_by = … AND status = 'processing' AND locked_until > now`
abbrev pub is_owned : Lease → Job → Bool
is_owned l j =
    is_text j.locked_by l.worker_id
    && is_processing j.status
    && elim j.locked_until [ none ↦ false | some t ↦ ltb l.now t ]

-- The attempt belongs to the job and to the worker.
abbrev pub is_mine : Lease → Attempt → Bool
is_mine l a = a.job_id == l.job_id && a.worker_id == l.worker_id

abbrev pub owned_job : Lease → Option Job → Option Job
owned_job l none = none
owned_job l (some j) = if is_owned l j then some j else none

abbrev pub my_attempt : Lease → (AttemptState → Bool) → Option Attempt → Option Attempt
my_attempt l test none = none
my_attempt l test (some a) = if is_mine l a && test a.state then some a else none

abbrev pub beaten : ℕ → ℕ → Job → Job
beaten now until j = record j {
  heartbeat_at = some now;
  locked_until = some until;
  updated_at = now;
}

abbrev pub beat_found : Lease → (lease_ms : ℕ) → Option Job → Option Attempt → Queue → Bool × Queue
beat_found l lease_ms none a q = (false, q)
beat_found l lease_ms (some j) none q = (false, q)
beat_found l lease_ms (some j) (some a) q = (
  true,
  record q {
    jobs = adjust l.job_id (beaten l.now (l.now + lease_ms)) q.jobs;
    attempts = adjust l.attempt_id (λ (b : Attempt). record b { heartbeat_at = l.now }) q.attempts;
  },
)

-- `heartbeat`
unfoldable pub heartbeat : Lease → (lease_ms : ℕ) → Queue → Result JobError (Bool × Queue)
heartbeat l lease_ms q = do
  guard (ltb 0 lease_ms) type_error
  check_lease l
  ok (
      beat_found l lease_ms (owned_job l (lookup l.job_id q.jobs))
        (my_attempt l is_live (lookup l.attempt_id q.attempts)) q)

abbrev pub is_claimed : AttemptState → Bool
is_claimed claimed = true
is_claimed _ = false

-- `providerName`: letters in lower case, digits and `_.-`.
abbrev pub is_provider_code : ℕ → Bool
is_provider_code c =
    leb b'a' c && leb c b'z' || leb b'0' c && leb c b'9' || c == b'_' || c == b'.' || c == b'-'

-- `errorCodeValue`: letters in upper case, digits and `_`.
abbrev pub is_error_code : ℕ → Bool
is_error_code c = leb b'A' c && leb c b'Z' || leb b'0' c && leb c b'9' || c == b'_'

unfoldable pub every_code : (ℕ → Bool) → String → Bool
every_code p String.[] = true
every_code p (String.◌∷◌ c s) = p (code c) && every_code p s

abbrev pub is_technical : (ℕ → Bool) → String → Bool
is_technical p s = is_bounded s 64 && every_code p s

abbrev pub started : String → ℕ → Attempt → Attempt
started provider now a = record a {
  state = sending;
  provider = some provider;
  effect_started_at = some now;
  heartbeat_at = now;
}

abbrev pub start_found : Lease → String → Option Attempt → Queue → Bool × Queue
start_found l provider none q = (false, q)
start_found l provider (some a) q =
    (true, record q { attempts = adjust l.attempt_id (started provider l.now) q.attempts })

abbrev pub start_owned : Lease → String → Option Job → Queue → Result JobError (Bool × Queue)
start_owned l provider none q = ok (false, q)
start_owned l provider (some job) q = do
  guard (is_bounded l.attempt_id 128) type_error
  guard (is_technical is_provider_code provider) type_error
  ok (start_found l provider (my_attempt l is_claimed (lookup l.attempt_id q.attempts)) q)

-- `markEffectStarted`
unfoldable pub mark_effect_started :
    Lease → (provider : String) → Queue → Result JobError (Bool × Queue)
mark_effect_started l provider q = do
  guard (is_bounded l.job_id 128) type_error
  guard (is_bounded l.worker_id 128) type_error
  start_owned l provider (owned_job l (lookup l.job_id q.jobs)) q
