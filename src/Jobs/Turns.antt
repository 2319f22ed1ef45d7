-- ===== src/Jobs/Turns.antt =====
-- The statements on a job and its current attempt keep the rows safe.
use crm_silmer.Base.{
  ltb, text_eq, nat_eq, ◌==◌, is_some, Bool-cases, Table, lookup, put, lookup-put, put-IsMap, ◌+◌,
  String, ◌≡◌, refl, sym, ◌∙◌, subst, ◌≢◌, inl, inr, true, false, none, some, arith, eq_iff,
}
use crm_silmer.Jobs.{Job, Attempt, is_waiting, adjust}
use crm_silmer.Jobs.Rows.{attempt_at, Claim, locked, new_attempt, is_taken}
use crm_silmer.Jobs.Tables.{
  lookup-adjust, lookup-adjust-eq-some, is_some-lookup-adjust, adjust_self, adjust-IsMap,
  attempt_at_complete,
}
use crm_silmer.Jobs.Safe.{fits, IsSafe, KeepsKeys, change-IsSafe, safe-fits, past-is_safe, fits-le}

module _ (jobs : Table Job) (attempts : Table Attempt) (id : String) (j : Job)
    (at_job : lookup id jobs ≡ some j) (s : IsSafe jobs attempts) where
  found_job : (l : Job) → lookup id jobs ≡ some l → l ≡ j
  found_job l h = cc

  fits_job :
      (i : String) (a : Attempt) → lookup i attempts ≡ some a → a.job_id ≡ id → fits a j ≡ true
  fits_job i a h own = s.fitting i a j h (subst (λ x. lookup x jobs ≡ some j) (sym own) at_job)

  -- The current attempt ends and the job changes.
  module _ (aid : String) (a : Attempt) (at_attempt : lookup aid attempts ≡ some a)
      (own : a.job_id ≡ id) (is_current : a.attempt_no ≡ j.attempt_count) (g : Job → Job)
      (f : Attempt → Attempt) (keys : KeepsKeys f)
      (same_count : (g j).attempt_count ≡ j.attempt_count)
      (same_max : (g j).max_attempts ≡ j.max_attempts) (fitting : fits (f a) (g j) ≡ true) where
    earlier :
        (i : String) (b : Attempt)
        → (aid == i) ≡ false
        → lookup i attempts ≡ some b
        → b.job_id ≡ id
        → fits b (g j) ≡ true
    earlier i b apart h its =
        let fit = fits_job i b h its in
        let le = fits-le b j fit in
        let ne : b.attempt_no ≢ a.attempt_no = λ e.
          cc ((eq_iff aid i).1 (s.unique aid i a b at_attempt h (own ∙ sym its) (sym e)), apart) in
        safe-fits b (g j) (past-is_safe b j fit (ground (arith, ne))) (ground (arith, le))

    pub finish-IsSafe : IsSafe (adjust id g jobs) (adjust aid f attempts)
    finish-IsSafe =
        change-IsSafe jobs attempts id aid g f keys
          (λ l h. ground (arith, found_job l h, s.bounded id j at_job))
          (λ b l h k. ground (arith, eq_iff id b.job_id, found_job l))
          (λ i b l apart h k its. ground (arith, found_job l k, earlier i b apart h its)) s

  -- A job with no current attempt changes.
  module _ (g : Job → Job) (absent : attempt_at id j.attempt_count attempts ≡ none)
      (same_count : (g j).attempt_count ≡ j.attempt_count)
      (same_max : (g j).max_attempts ≡ j.max_attempts) where
    past-fits :
        (i : String) (b : Attempt)
        → lookup i attempts ≡ some b
        → b.job_id ≡ id
        → fits b (g j) ≡ true
    past-fits i b h its =
        let fit = fits_job i b h its in
        let le = fits-le b j fit in
        let ne : b.attempt_no ≢ j.attempt_count =
          λ e. cc (attempt_at_complete id j.attempt_count attempts i b h its e, absent) in
        safe-fits b (g j) (past-is_safe b j fit (ground (arith, ne))) (ground (arith, le))

    pub orphan-IsSafe : IsSafe (adjust id g jobs) attempts
    orphan-IsSafe =
        subst (λ t. IsSafe (adjust id g jobs) t) (adjust_self "" attempts)
          (change-IsSafe jobs attempts id "" g (λ a. a) (λ a. (refl, refl))
            (λ l h. ground (arith, found_job l h, s.bounded id j at_job))
            (λ b l h k.
              ground
                (arith, eq_iff id b.job_id, found_job l, past-fits "" b h, s.fitting "" b l h k))
            (λ i b l apart h k its. ground (arith, found_job l k, past-fits i b h its)) s)

  -- A waiting job is locked for a new attempt.
  module _ (c : Claim) (nid : String) (waits : is_waiting j.status ≡ true)
      (more : ltb j.attempt_count j.max_attempts ≡ true)
      (free : is_taken nid id (j.attempt_count + 1) attempts ≡ false) where
    abbrev pub jobs' : Table Job
    jobs' = adjust id (locked c) jobs

    abbrev pub attempts' : Table Attempt
    attempts' = put nid (new_attempt c id (j.attempt_count + 1)) attempts

    new-eq :
        (i : String) (a : Attempt)
        → (nid == i) ≡ true
        → lookup i attempts' ≡ some a
        → a ≡ new_attempt c id (j.attempt_count + 1)
    new-eq i a new h =
        ground (arith, lookup-put nid i (new_attempt c id (j.attempt_count + 1)) attempts)

    old-eq :
        (i : String) (a : Attempt)
        → (nid == i) ≡ false
        → lookup i attempts' ≡ some a
        → lookup i attempts ≡ some a
    old-eq i a old h =
        ground (arith, lookup-put nid i (new_attempt c id (j.attempt_count + 1)) attempts)

    new-fits : fits (new_attempt c id (j.attempt_count + 1)) (locked c j) ≡ true
    unfolding fits
    new-fits = ground (arith, eq_iff c.worker_id c.worker_id)

    claim-fitting :
        (i : String) (a : Attempt) (l : Job)
        → lookup i attempts' ≡ some a
        → lookup a.job_id jobs' ≡ some l
        → fits a l ≡ true
    claim-fitting i a l h k =
        let (m, found, is_m) = lookup-adjust-eq-some id a.job_id (locked c) jobs k in
        elim (Bool-cases (nid == i)) [
          | inl new ↦
              let is_new = new-eq i a new h in
              ground (arith, eq_iff id a.job_id, eq_iff id id, found_job m, new-fits)
          | inr old ↦
              let at_attempt = old-eq i a old h in
              elim (Bool-cases (id == a.job_id)) [
                | inl its ↦
                    let own : a.job_id ≡ id = sym ((eq_iff id a.job_id).0 its) in
                    let fit = fits_job i a at_attempt own in
                    let le = fits-le a j fit in
                    let safe = past-is_safe a j fit (ground arith) in
                    let is_j : m ≡ j = ground (arith, own, found_job m) in
                    ground (arith, is_j, is_m, safe-fits a (locked c j) safe)
                | inr apart ↦ ground (arith, s.fitting i a m at_attempt found)
              ]
        ]

    claim-fresh :
        (i : String) (a : Attempt)
        → lookup i attempts ≡ some a
        → a.job_id ≡ id
        → a.attempt_no ≡ j.attempt_count + 1
        → ⊥
    claim-fresh i a h own numbered =
        ground (arith, attempt_at_complete id (j.attempt_count + 1) attempts i a h own numbered)

    claim_unique :
        (i k : String) (a b : Attempt)
        → lookup i attempts' ≡ some a
        → lookup k attempts' ≡ some b
        → a.job_id ≡ b.job_id
        → a.attempt_no ≡ b.attempt_no
        → i ≡ k
    claim_unique i k a b h l p q = elim (Bool-cases (nid == i)) [
      | inl new ↦ elim (Bool-cases (nid == k)) [
        | inl both ↦ ground (arith, eq_iff nid i, eq_iff nid k)
        | inr old ↦ absurd (
            claim-fresh k b (old-eq k b old l) (ground (arith, new-eq i a new h))
              (ground (arith, new-eq i a new h)))
      ]
      | inr first ↦ elim (Bool-cases (nid == k)) [
        | inl new ↦ absurd (
            claim-fresh i a (old-eq i a first h) (ground (arith, new-eq k b new l))
              (ground (arith, new-eq k b new l)))
        | inr old ↦ s.unique i k a b (old-eq i a first h) (old-eq k b old l) p q
      ]
    ]

    claim-owned :
        (i : String) (a : Attempt)
        → lookup i attempts' ≡ some a
        → is_some (lookup a.job_id jobs') ≡ true
    claim-owned i a h = elim (Bool-cases (nid == i)) [
      | inl new ↦ ground (
        arith,
        lookup-put nid i (new_attempt c id (j.attempt_count + 1)) attempts,
        lookup-adjust id a.job_id (locked c) jobs,
        at_job,
      )
      | inr old ↦ ground (
        arith,
        lookup-put nid i (new_attempt c id (j.attempt_count + 1)) attempts,
        is_some-lookup-adjust id a.job_id (locked c) jobs,
        s.owned i a,
      )
    ]

    pub claim-IsSafe : IsSafe jobs' attempts'
    claim-IsSafe = record {
      jobs_keyed = adjust-IsMap id (locked c) jobs s.jobs_keyed;
      attempts_keyed =
          put-IsMap nid (new_attempt c id (j.attempt_count + 1)) attempts s.attempts_keyed;
      bounded = λ l k h.
          let (m, found, is_m) = lookup-adjust-eq-some id l (locked c) jobs h in
          ground (arith, eq_iff id l, found_job m, s.bounded l m found);
      owned = claim-owned;
      fitting = claim-fitting;
      unique = claim_unique;
    }
