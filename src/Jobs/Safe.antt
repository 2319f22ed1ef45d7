-- ===== src/Jobs/Safe.antt =====
-- Attempts and their jobs: one attempt at a time, and none again unless all before it failed
-- and were safe to retry.
use crm_silmer.Base.{
  ltb, leb, text_eq, nat_eq, ◌==◌, if◌then◌else◌, is_some, is_text, Bool-cases, Table, lookup,
  IsMap, String, ◌≡◌, sym, subst, inl, inr, Bool, true, false, not, ◌&&◌, ◌||◌, Option, none, some,
  arith, eq_iff,
}
use crm_silmer.Jobs.{AttemptState, failed, Job, Attempt, is_waiting, is_processing, is_live, adjust}
use crm_silmer.Jobs.Tables.{lookup-adjust-eq-some, is_some-lookup-adjust, adjust-IsMap}

-- A failed attempt that may be made again.
abbrev pub is_failed : AttemptState → Bool
is_failed failed = true
is_failed _ = false

abbrev pub is_true : Option Bool → Bool
is_true none = false
is_true (some b) = b

abbrev pub is_safe : Attempt → Bool
is_safe a = is_failed a.state && is_true a.retry_safe

-- How an attempt stands to its job.
unfoldable pub fits : Attempt → Job → Bool
fits a j =
    leb a.attempt_no j.attempt_count
    && (not (is_live a.state)
        || is_processing j.status
          && a.attempt_no == j.attempt_count
          && is_text j.locked_by a.worker_id)
    && (not (is_waiting j.status || ltb a.attempt_no j.attempt_count) || is_safe a)

pub record IsSafe (jobs : Table Job) (attempts : Table Attempt) : Type 0 where
  pub jobs_keyed : IsMap jobs
  pub attempts_keyed : IsMap attempts
  pub bounded :
      (id : String) (j : Job) → lookup id jobs ≡ some j → leb j.attempt_count j.max_attempts ≡ true
  pub owned :
      (i : String) (a : Attempt)
      → lookup i attempts ≡ some a
      → is_some (lookup a.job_id jobs) ≡ true
  pub fitting :
      (i : String) (a : Attempt) (j : Job)
      → lookup i attempts ≡ some a
      → lookup a.job_id jobs ≡ some j
      → fits a j ≡ true
  pub unique :
      (i k : String) (a b : Attempt)
      → lookup i attempts ≡ some a
      → lookup k attempts ≡ some b
      → a.job_id ≡ b.job_id
      → a.attempt_no ≡ b.attempt_no
      → i ≡ k

abbrev pub KeepsKeys : (Attempt → Attempt) → Type 0
KeepsKeys f = (a : Attempt) → ((f a).job_id ≡ a.job_id) × ((f a).attempt_no ≡ a.attempt_no)

-- A statement on one job and one on one of its attempts keep the rows safe when the job and each
-- of its attempts fit afterwards.
module _ (jobs : Table Job) (attempts : Table Attempt) (id aid : String) (g : Job → Job)
    (f : Attempt → Attempt) (keys : KeepsKeys f)
    (within : (j : Job)
      → lookup id jobs ≡ some j
      → leb (g j).attempt_count (g j).max_attempts ≡ true)
    (current : (a : Attempt) (j : Job)
      → lookup aid attempts ≡ some a
      → lookup a.job_id jobs ≡ some j
      → fits (f a) (if id == a.job_id then g j else j) ≡ true)
    (others : (i : String) (a : Attempt) (j : Job)
      → (aid == i) ≡ false
      → lookup i attempts ≡ some a
      → lookup id jobs ≡ some j
      → a.job_id ≡ id
      → fits a (g j) ≡ true)
    (s : IsSafe jobs attempts) where
  change-fitting :
      (i : String) (a : Attempt) (j : Job)
      → lookup i (adjust aid f attempts) ≡ some a
      → lookup a.job_id (adjust id g jobs) ≡ some j
      → fits a j ≡ true
  change-fitting i a j h k =
      let (b, at_attempt, is_b) = lookup-adjust-eq-some aid i f attempts h in
      let (l, at_job, is_l) = lookup-adjust-eq-some id a.job_id g jobs k in
      let same : a.job_id ≡ b.job_id = ground (arith, is_b, keys b) in
      let at_job' : lookup b.job_id jobs ≡ some l =
        subst (λ x. lookup x jobs ≡ some l) same at_job in
      elim (Bool-cases (aid == i)) [
        | inl this ↦
            let at_aid : lookup aid attempts ≡ some b =
              subst (λ x. lookup x attempts ≡ some b) (sym ((eq_iff aid i).0 this)) at_attempt in
            ground (arith, is_b, is_l, same, current b l at_aid at_job')
        | inr other ↦ elim (Bool-cases (id == a.job_id)) [
          | inl its ↦
              let at_id : lookup id jobs ≡ some l =
                subst (λ x. lookup x jobs ≡ some l) (sym ((eq_iff id a.job_id).0 its)) at_job in
              ground
                (arith, is_b, is_l, same, eq_iff id a.job_id, others i b l other at_attempt at_id)
          | inr apart ↦ ground (arith, is_b, is_l, s.fitting i b l at_attempt at_job')
        ]
      ]

  change_unique :
      (i k : String) (a b : Attempt)
      → lookup i (adjust aid f attempts) ≡ some a
      → lookup k (adjust aid f attempts) ≡ some b
      → a.job_id ≡ b.job_id
      → a.attempt_no ≡ b.attempt_no
      → i ≡ k
  change_unique i k a b h l p q =
      let (a', at_a, is_a) = lookup-adjust-eq-some aid i f attempts h in
      let (b', at_b, is_b) = lookup-adjust-eq-some aid k f attempts l in
      s.unique i k a' b' at_a at_b (ground (arith, keys a', keys b'))
        (ground (arith, keys a', keys b'))

  change-owned :
      (i : String) (a : Attempt)
      → lookup i (adjust aid f attempts) ≡ some a
      → is_some (lookup a.job_id (adjust id g jobs)) ≡ true
  change-owned i a h =
      let (b, found, is_b) = lookup-adjust-eq-some aid i f attempts h in
      ground (arith, keys b, is_some-lookup-adjust id a.job_id g jobs, s.owned i b found)

  change-bounded :
      (l : String) (j : Job)
      → lookup l (adjust id g jobs) ≡ some j
      → leb j.attempt_count j.max_attempts ≡ true
  change-bounded l j h =
      let (k, found, is_k) = lookup-adjust-eq-some id l g jobs h in
      ground (arith, eq_iff id l, within k, s.bounded l k found)

  pub change-IsSafe : IsSafe (adjust id g jobs) (adjust aid f attempts)
  change-IsSafe = record {
    jobs_keyed = adjust-IsMap id g jobs s.jobs_keyed;
    attempts_keyed = adjust-IsMap aid f attempts s.attempts_keyed;
    bounded = change-bounded;
    owned = change-owned;
    fitting = change-fitting;
    unique = change_unique;
  }

-- An attempt that failed safely fits its job, whatever the job waits for.
pub safe-fits :
    (a : Attempt) (j : Job)
    → is_safe a ≡ true
    → leb a.attempt_no j.attempt_count ≡ true
    → fits a j ≡ true
unfolding fits
safe-fits a j safe le = ground arith

-- An attempt of a job before its current one failed safely.
pub past-is_safe :
    (a : Attempt) (j : Job)
    → fits a j ≡ true
    → (is_waiting j.status || ltb a.attempt_no j.attempt_count) ≡ true
    → is_safe a ≡ true
unfolding fits
past-is_safe a j h past = ground arith

pub fits-le : (a : Attempt) (j : Job) → fits a j ≡ true → leb a.attempt_no j.attempt_count ≡ true
unfolding fits
fits-le a j h = ground arith
