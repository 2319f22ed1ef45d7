-- ===== src/Jobs/Expired.antt =====
-- A turn of `#recoverExpired` keeps the rows safe.
use crm_silmer.Base.{
  if◌then◌else◌, is_some, Result, ok, err, map_ok, >>=-eq-ok, ok-injective, lookup, ℕ, String, ◌≡◌,
  refl, subst, Bool, true, not, ◌&&◌, Option, none, some, arith,
}
use crm_silmer.Jobs.{
  JobStatus, AttemptState, claimed, sending, sent, failed, unknown, JobError, Job, Attempt, Queue,
  is_waiting, is_processing, is_live, adjust, Decision, retries, gives_up, Expiry, expiry_of,
  decide_expired_attempt,
}
use crm_silmer.Jobs.Rows.{
  mark_event, Finish, finished, finish_attempt, ended, finish_job, retried, retry_job,
  insert_reconciliation, attempt_at, joined_state, is_retry, finish_joined, settle_expired,
  recover_found, recover_row,
}
use crm_silmer.Jobs.Tables.{attempt_at_sound}
use crm_silmer.Jobs.Safe.{is_failed, fits, IsSafe}
use crm_silmer.Jobs.Turns.{finish-IsSafe, orphan-IsSafe}

pub mark_event-jobs :
    (o : Option String) (status : String) (q : Queue) → (mark_event o status q).jobs ≡ q.jobs
mark_event-jobs none status q = refl
mark_event-jobs (some id) status q = refl

pub mark_event-attempts :
    (o : Option String) (status : String) (q : Queue)
    → (mark_event o status q).attempts ≡ q.attempts
mark_event-attempts none status q = refl
mark_event-attempts (some id) status q = refl

-- What the end of a lease makes of the job.
abbrev pub expired_job : Option String → JobStatus → ℕ → Job → Job
expired_job none status now = retried now now "WORKER_LEASE_EXPIRED"
expired_job (some reason) status now = ended status now (some "WORKER_LEASE_EXPIRED")

abbrev pub is_decided : Expiry → Bool
is_decided d =
    not (is_live d.outcome)
    && (if is_some d.reason
        then not (is_waiting d.status) && not (is_processing d.status)
        else is_failed d.outcome && is_retry d.status)

expiry_of-decided : (d : Decision) → is_decided (expiry_of d) ≡ true
expiry_of-decided retries = refl
expiry_of-decided (gives_up reason) = refl

failed-decided :
    (m : Result JobError Decision) {d : Expiry} → map_ok expiry_of m ≡ ok d → is_decided d ≡ true
failed-decided (err e) h = cc
failed-decided (ok x) {d} h =
    subst (λ y. is_decided y ≡ true) (ok-injective h) (expiry_of-decided x)

pub decide_expired_attempt-decided :
    (n m : ℕ) (state : AttemptState) {d : Expiry}
    → decide_expired_attempt n m state ≡ ok d
    → is_decided d ≡ true
unfolding decide_expired_attempt
decide_expired_attempt-decided n m sending {d} h =
    subst (λ y. is_decided y ≡ true) (ok-injective h) refl
decide_expired_attempt-decided n m claimed h = failed-decided _ h
decide_expired_attempt-decided n m sent h = failed-decided _ h
decide_expired_attempt-decided n m failed h = failed-decided _ h
decide_expired_attempt-decided n m unknown h = failed-decided _ h

pub settle_expired-jobs :
    (id : String) (job : Job) (now : ℕ) (status : JobStatus) (reason : Option String) (q : Queue)
    → (settle_expired id job now status reason q).jobs
      ≡ adjust id (expired_job reason status now) q.jobs
unfolding retry_job finish_job insert_reconciliation
settle_expired-jobs id job now status none q = mark_event-jobs job.channel_event_id _ _
settle_expired-jobs id job now status (some r) q = mark_event-jobs job.channel_event_id _ _

pub settle_expired-attempts :
    (id : String) (job : Job) (now : ℕ) (status : JobStatus) (reason : Option String) (q : Queue)
    → (settle_expired id job now status reason q).attempts ≡ q.attempts
unfolding retry_job finish_job insert_reconciliation
settle_expired-attempts id job now status none q = mark_event-attempts job.channel_event_id _ _
settle_expired-attempts id job now status (some r) q = mark_event-attempts job.channel_event_id _ _

abbrev pub AreSafe : Queue → Type 0
AreSafe q = IsSafe q.jobs q.attempts

expired_finish : ℕ → Expiry → Finish
expired_finish now d = record {
  error_code = some "WORKER_LEASE_EXPIRED";
  external_id = none;
  finished_at = now;
  outcome = d.outcome;
  retry_safe = some (is_retry d.status);
}

expired-fits :
    (a : Attempt) (j : Job) (now : ℕ) (outcome : AttemptState) (status : JobStatus)
    (reason : Option String)
    → is_decided (record { outcome = outcome; reason = reason; status = status }) ≡ true
    → a.attempt_no ≡ j.attempt_count
    → fits
        (finished
          (expired_finish now (record { outcome = outcome; reason = reason; status = status }))
          a)
        (expired_job reason status now j)
      ≡ true
unfolding fits expired_finish
expired-fits a j now outcome status none h e = ground arith
expired-fits a j now outcome status (some r) h e = ground arith

expired_job-count :
    (reason : Option String) (status : JobStatus) (now : ℕ) (j : Job)
    → ((expired_job reason status now j).attempt_count ≡ j.attempt_count)
      × ((expired_job reason status now j).max_attempts ≡ j.max_attempts)
expired_job-count none status now j = (refl, refl)
expired_job-count (some r) status now j = (refl, refl)

module _ (q : Queue) (s : AreSafe q) (id : String) (j : Job) (at_job : lookup id q.jobs ≡ some j)
    (now : ℕ) (d : Expiry) where
  joined-AreSafe :
      (o : Option (String × Attempt))
      → attempt_at id j.attempt_count q.attempts ≡ o
      → decide_expired_attempt j.attempt_count j.max_attempts (joined_state o) ≡ ok d
      → IsSafe
          (adjust id (expired_job d.reason d.status now) q.jobs)
          (finish_joined o now d q).attempts
  unfolding finish_attempt expired_finish
  joined-AreSafe none joined decided =
      orphan-IsSafe q.jobs q.attempts id j at_job s (expired_job d.reason d.status now) joined
        (expired_job-count d.reason d.status now j).0 (expired_job-count d.reason d.status now j).1
  joined-AreSafe (some (aid, a)) joined decided =
      let (at_attempt, own, current) =
        attempt_at_sound id j.attempt_count q.attempts aid a s.attempts_keyed joined in
      finish-IsSafe q.jobs q.attempts id j at_job s aid a at_attempt own current
        (expired_job d.reason d.status now) (finished (expired_finish now d)) (λ b. (refl, refl))
        (expired_job-count d.reason d.status now j).0 (expired_job-count d.reason d.status now j).1
        (expired-fits a j now d.outcome d.status d.reason
          (decide_expired_attempt-decided j.attempt_count j.max_attempts a.state decided) current)

  finish_joined-jobs : (o : Option (String × Attempt)) → (finish_joined o now d q).jobs ≡ q.jobs
  unfolding finish_attempt
  finish_joined-jobs none = refl
  finish_joined-jobs (some (aid, a)) = refl

  expired-AreSafe :
      decide_expired_attempt j.attempt_count j.max_attempts
          (joined_state (attempt_at id j.attempt_count q.attempts))
        ≡ ok d
      → AreSafe (
          settle_expired id j now d.status d.reason
            (finish_joined (attempt_at id j.attempt_count q.attempts) now d q))
  expired-AreSafe decided =
      let o : Option (String × Attempt) = attempt_at id j.attempt_count q.attempts in
      rw
        (
          settle_expired-jobs id j now d.status d.reason (finish_joined o now d q),
          settle_expired-attempts id j now d.status d.reason (finish_joined o now d q),
          finish_joined-jobs o,
        )
        (joined-AreSafe o refl decided)

recover_found-AreSafe :
    (now : ℕ) (id : String) (q : Queue) (o : Option Job) {t : Queue}
    → lookup id q.jobs ≡ o
    → AreSafe q
    → recover_found now id o q ≡ ok t
    → AreSafe t
recover_found-AreSafe now id q none found s h = subst AreSafe (ok-injective h) s
recover_found-AreSafe now id q (some j) found s h =
    let (d, decided, done) =
      >>=-eq-ok
        (decide_expired_attempt j.attempt_count j.max_attempts
          (joined_state (attempt_at id j.attempt_count q.attempts)))
        _ h in
    subst AreSafe (ok-injective done) (expired-AreSafe q s id j found now d decided)

pub recover_row-AreSafe :
    (now : ℕ) (q : Queue) (id : String) {t : Queue}
    → AreSafe q
    → recover_row now q id ≡ ok t
    → AreSafe t
unfolding recover_row
recover_row-AreSafe now q id s h = recover_found-AreSafe now id q (lookup id q.jobs) refl s h
