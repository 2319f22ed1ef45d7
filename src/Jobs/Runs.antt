-- ===== src/Jobs/Runs.antt =====
-- Any workers, any calls in any order: runs of the queue.
use crm_silmer.Base.{
  leb, Option-cases, Result, ok, err, map_ok, ok-injective, after, after-keeps, Table, lookup,
  IsMap, ℕ, ◌≤◌, ◌<◌, String, ◌≡◌, refl, sym, ap, ◌∙◌, subst, inl, inr, Bool, true, false, ◌&&◌,
  Option, none, some, List, [], ◌∷◌, arith,
}
use crm_silmer.Jobs.{
  AttemptState, claimed, sending, sent, failed, unknown, JobError, Job, Attempt, Queue, is_live,
}
use crm_silmer.Jobs.Rows.{Claim}
use crm_silmer.Jobs.Commands.{Database, claim, Lease, heartbeat, mark_effect_started}
use crm_silmer.Jobs.Settling.{Settle, settle}
use crm_silmer.Jobs.Safe.{is_failed, is_true, fits, past-is_safe, fits-le}
use crm_silmer.Jobs.Expired.{AreSafe}
use crm_silmer.Jobs.Claims.{claim-AreSafe}
use crm_silmer.Jobs.Leases.{live-is_current, heartbeat-AreSafe, mark_effect_started-AreSafe}
use crm_silmer.Jobs.Settled.{settle-AreSafe}

pub data Call : Type 0 where
  claims : Database → Claim → Call
  beats : Lease → (lease_ms : ℕ) → Call
  starts : Lease → (provider : String) → Call
  settles : Settle → Call

unfoldable pub execute : Queue → Call → Result JobError Queue
execute q (claims db c) = map_ok (λ (r : List String × Queue). r.1) (claim db c q)
execute q (beats l lease_ms) = map_ok (λ (r : Bool × Queue). r.1) (heartbeat l lease_ms q)
execute q (starts l provider) =
    map_ok (λ (r : Bool × Queue). r.1) (mark_effect_started l provider q)
execute q (settles i) = map_ok (λ (r : Bool × Queue). r.1) (settle i q)

-- A transaction that throws is rolled back.
unfoldable pub run : Queue → List Call → Queue
unfolding execute
run q [] = q
run q (c ∷ cs) = run (after q (execute q c)) cs

-- Jobs that nobody has attempted yet.
pub record IsReady (q : Queue) : Type 0 where
  pub keyed : IsMap q.jobs
  pub unattempted : q.attempts ≡ []
  pub within :
      (id : String) (j : Job)
      → lookup id q.jobs ≡ some j
      → leb j.attempt_count j.max_attempts ≡ true

none_found {ℓ} :
    {B : Type ℓ} (attempts : Table Attempt) (i : String) {a : Attempt}
    → attempts ≡ []
    → lookup i attempts ≡ some a
    → B
unfolding lookup
none_found [] i e h = absurd (cc)
none_found ((k, v) ∷ m) i e h = absurd (cc)

IsReady-AreSafe : (q : Queue) → IsReady q → AreSafe q
IsReady-AreSafe q r = record {
  jobs_keyed = r.keyed;
  attempts_keyed = subst IsMap (sym r.unattempted) tt;
  bounded = r.within;
  owned = λ i a h. none_found q.attempts i r.unattempted h;
  fitting = λ i a j h k. none_found q.attempts i r.unattempted h;
  unique = λ i k a b h l p e. none_found q.attempts i r.unattempted h;
}

map_ok-keeps :
    {A : Type 0} (f : A → Queue) (m : Result JobError A) {t : Queue}
    → ((a : A) → m ≡ ok a → AreSafe (f a))
    → map_ok f m ≡ ok t
    → AreSafe t
map_ok-keeps f (err e) keeps h = cc
map_ok-keeps f (ok a) keeps h = subst AreSafe (ok-injective h) (keeps a refl)

execute-AreSafe : (q : Queue) (c : Call) {t : Queue} → AreSafe q → execute q c ≡ ok t → AreSafe t
unfolding execute
execute-AreSafe q (claims db c) s h =
    map_ok-keeps _ (claim db c q) (λ (r : List String × Queue) e. claim-AreSafe db c q s e) h
execute-AreSafe q (beats l n) s h =
    map_ok-keeps _ (heartbeat l n q) (λ (r : Bool × Queue) e. heartbeat-AreSafe l n q s e) h
execute-AreSafe q (starts l p) s h =
    map_ok-keeps _ (mark_effect_started l p q)
      (λ (r : Bool × Queue) e. mark_effect_started-AreSafe l p q s e) h
execute-AreSafe q (settles i) s h =
    map_ok-keeps _ (settle i q) (λ (r : Bool × Queue) e. settle-AreSafe i q s e) h

run-AreSafe : (cs : List Call) (q : Queue) → AreSafe q → AreSafe (run q cs)
unfolding run
run-AreSafe [] q s = s
run-AreSafe (c ∷ cs) q s =
    run-AreSafe cs (after q (execute q c))
      (after-keeps AreSafe q (execute q c) (λ t h. execute-AreSafe q c s h) s)

-- The job of an attempt, and how the attempt stands to it.
standing :
    (q : Queue) (i : String) (a : Attempt)
    → AreSafe q
    → lookup i q.attempts ≡ some a
    → (j : Job) × (lookup a.job_id q.jobs ≡ some j) × (fits a j ≡ true)
standing q i a s h = elim (Option-cases (lookup a.job_id q.jobs)) [
  | inl missing ↦ absurd (ground (arith, s.owned i a h, missing))
  | inr (j, found) ↦ (j, found, s.fitting i a j h found)
]

is_safe-eq :
    (state : AttemptState) (retry_safe : Option Bool)
    → (is_failed state && is_true retry_safe) ≡ true
    → (state ≡ failed) × (retry_safe ≡ some true)
is_safe-eq failed (some true) h = (refl, refl)
is_safe-eq failed (some false) h = cc
is_safe-eq failed none h = cc
is_safe-eq claimed r h = cc
is_safe-eq sending r h = cc
is_safe-eq sent r h = cc
is_safe-eq unknown r h = cc

-- However the workers call the queue, from jobs that nobody has attempted, two attempts of one job
-- that are both under way are one attempt.
pub run-one_at_a_time :
    (cs : List Call) (q : Queue) (i k : String) (a b : Attempt)
    → IsReady q
    → lookup i (run q cs).attempts ≡ some a
    → lookup k (run q cs).attempts ≡ some b
    → a.job_id ≡ b.job_id
    → is_live a.state ≡ true
    → is_live b.state ≡ true
    → i ≡ k
run-one_at_a_time cs q i k a b ready h l same live_a live_b =
    let s = run-AreSafe cs q (IsReady-AreSafe q ready) in
    let (j, found_j, fit_a) = standing (run q cs) i a s h in
    let (m, found_m, fit_b) = standing (run q cs) k b s l in
    let one : j ≡ m = cc in
    s.unique i k a b h l same (
      live-is_current a j fit_a live_a
      ∙ ap (λ (x : Job). x.attempt_count) one
      ∙ sym (live-is_current b m fit_b live_b))

-- However the workers call the queue, from jobs that nobody has attempted, an attempt of a job that
-- a later attempt of the job follows has failed, and was said to be safe to retry.
pub run-repeats_are_safe :
    (cs : List Call) (q : Queue) (i k : String) (a b : Attempt)
    → IsReady q
    → lookup i (run q cs).attempts ≡ some a
    → lookup k (run q cs).attempts ≡ some b
    → a.job_id ≡ b.job_id
    → a.attempt_no < b.attempt_no
    → (a.state ≡ failed) × (a.retry_safe ≡ some true)
run-repeats_are_safe cs q i k a b ready h l same earlier =
    let s = run-AreSafe cs q (IsReady-AreSafe q ready) in
    let (j, found_j, fit_a) = standing (run q cs) i a s h in
    let (m, found_m, fit_b) = standing (run q cs) k b s l in
    let one : j ≡ m = cc in
    let le = fits-le b m fit_b in
    is_safe-eq a.state a.retry_safe (past-is_safe a j fit_a (ground (arith, one, le)))

-- However the workers call the queue, from jobs that nobody has attempted, the number of an attempt
-- is at most the greatest number of attempts of its job.
pub run-attempts_are_bounded :
    (cs : List Call) (q : Queue) (i : String) (a : Attempt)
    → IsReady q
    → lookup i (run q cs).attempts ≡ some a
    → (j : Job) × (lookup a.job_id (run q cs).jobs ≡ some j) × (a.attempt_no ≤ j.max_attempts)
run-attempts_are_bounded cs q i a ready h =
    let s = run-AreSafe cs q (IsReady-AreSafe q ready) in
    let (j, found, fit) = standing (run q cs) i a s h in
    (j, found, ground (arith, fits-le a j fit, s.bounded a.job_id j found))
