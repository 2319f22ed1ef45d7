-- ===== src/Jobs/Recovered.antt =====
-- A claim leaves no lease that has ended: jobs of dead workers come back.
use crm_silmer.Base.{
  ltb, text_eq, nat_eq, ◌==◌, Bool-cases, Option-cases, ok, >>=-eq-ok, ok-injective, guard-eq-ok,
  any, keep, Table, lookup, sort, any-sort, String, ◌≡◌, refl, sym, ap, ◌∙◌, subst, ◌⊎◌, inl, inr,
  Bool, true, false, Option, none, some, List, [], ◌∷◌, arith, eq_iff,
}
use crm_silmer.Jobs.{
  JobStatus, Job, Attempt, Queue, adjust, Expiry, decide_expired_attempt, is_bounded,
}
use crm_silmer.Jobs.Rows.{
  finish_attempt, attempt_at, is_expired, joined_state, finish_joined, recover_found, recover_row,
  Claim, locked, claim_found, claim_row, each,
}
use crm_silmer.Jobs.Commands.{
  Database, Row, ids_of, expires_first, is_picked, expired_ids, recover_expired, claimable_ids,
  check_claim, claim,
}
use crm_silmer.Jobs.Tables.{lookup-adjust-eq-some}
use crm_silmer.Jobs.Expired.{expired_job, settle_expired-jobs}
use crm_silmer.Jobs.Claims.{claim_found-eq-ok, claim-eq-ok}

module _ (c : Claim) (id : String) where
  abbrev pub IsFresh : Queue → Type 0
  IsFresh q = (j : Job) → lookup id q.jobs ≡ some j → is_expired c.now c.queue j ≡ false

  -- A statement on the jobs keeps a lease fresh, when it gives none that has ended.
  adjust-IsFresh :
      (k : String) (g : Job → Job) (q t : Queue)
      → t.jobs ≡ adjust k g q.jobs
      → ((j : Job) → is_expired c.now c.queue (g j) ≡ false)
      → IsFresh q
      → IsFresh t
  adjust-IsFresh k g q t e new fresh j h =
      let (l, found, is_l) =
        lookup-adjust-eq-some k id g q.jobs (subst (λ m. lookup id m ≡ some j) e h) in
      elim (Bool-cases (k == id)) [
        | inl this ↦ ground (arith, is_l, new l)
        | inr other ↦ ground (arith, is_l, fresh l found)
      ]

  -- … and gives one that has not to the job itself.
  adjust-gives :
      (g : Job → Job) (q t : Queue)
      → t.jobs ≡ adjust id g q.jobs
      → ((j : Job) → is_expired c.now c.queue (g j) ≡ false)
      → IsFresh t
  adjust-gives g q t e new j h =
      let (l, found, is_l) =
        lookup-adjust-eq-some id id g q.jobs (subst (λ m. lookup id m ≡ some j) e h) in
      ground (arith, is_l, new l, eq_iff id id)

  expired_job-fresh :
      (reason : Option String) (status : JobStatus) (j : Job)
      → is_expired c.now c.queue (expired_job reason status c.now j) ≡ false
  expired_job-fresh none status j = ground arith
  expired_job-fresh (some r) status j = ground arith

  locked-fresh : ltb 0 c.lease_ms ≡ true → (j : Job) → is_expired c.now c.queue (locked c j) ≡ false
  locked-fresh lease j = ground arith

  finish_joined-jobs :
      (o : Option (String × Attempt)) (d : Expiry) (q : Queue)
      → (finish_joined o c.now d q).jobs ≡ q.jobs
  unfolding finish_attempt
  finish_joined-jobs none d q = refl
  finish_joined-jobs (some (aid, a)) d q = refl

  -- What a turn of the recovery does to the jobs.
  recover_found-jobs :
      (k : String) (j : Job) (q : Queue) {t : Queue}
      → recover_found c.now k (some j) q ≡ ok t
      → (d : Expiry) × (t.jobs ≡ adjust k (expired_job d.reason d.status c.now) q.jobs)
  recover_found-jobs k j q {t} h =
      let (d, decided, done) =
        >>=-eq-ok
          (decide_expired_attempt j.attempt_count j.max_attempts
            (joined_state (attempt_at k j.attempt_count q.attempts)))
          _ h in
      let o : Option (String × Attempt) = attempt_at k j.attempt_count q.attempts in
      (
        d,
        ap (λ (r : Queue). r.jobs) (sym (ok-injective done))
            ∙ settle_expired-jobs k j c.now d.status d.reason (finish_joined o c.now d q)
            ∙ ap (adjust k (expired_job d.reason d.status c.now)) (finish_joined-jobs o d q),
      )

  recover_found-IsFresh :
      (k : String) (o : Option Job) (q : Queue) {t : Queue}
      → recover_found c.now k o q ≡ ok t
      → IsFresh q
      → IsFresh t
  recover_found-IsFresh k none q h fresh = subst IsFresh (ok-injective h) fresh
  recover_found-IsFresh k (some j) q {t} h fresh =
      let (d, wrote) = recover_found-jobs k j q h in
      adjust-IsFresh k (expired_job d.reason d.status c.now) q t wrote
        (λ l. expired_job-fresh d.reason d.status l) fresh

  recover_found-gives :
      (o : Option Job) (q : Queue) {t : Queue}
      → lookup id q.jobs ≡ o
      → recover_found c.now id o q ≡ ok t
      → IsFresh t
  recover_found-gives none q found h = subst IsFresh (ok-injective h) (λ j at. cc)
  recover_found-gives (some j) q {t} found h =
      let (d, wrote) = recover_found-jobs id j q h in
      adjust-gives (expired_job d.reason d.status c.now) q t wrote
        (λ l. expired_job-fresh d.reason d.status l)

  abbrev has : List String → Bool
  has ids = any (λ (i : String). i == id) ids

  recover_each-IsFresh :
      (ids : List String) (q : Queue) {t : Queue}
      → each (recover_row c.now) ids q ≡ ok t
      → (has ids ≡ true) ⊎ IsFresh q
      → IsFresh t
  unfolding recover_row
  recover_each-IsFresh [] q h (inl listed) = cc
  recover_each-IsFresh [] q h (inr fresh) = subst IsFresh (ok-injective h) fresh
  recover_each-IsFresh (k ∷ ids) q h (inr fresh) =
      let (r, first, rest) = >>=-eq-ok (recover_row c.now q k) _ h in
      recover_each-IsFresh ids r rest
        (inr (recover_found-IsFresh k (lookup k q.jobs) q first fresh))
  recover_each-IsFresh (k ∷ ids) q h (inl listed) =
      let (r, first, rest) = >>=-eq-ok (recover_row c.now q k) _ h in
      elim (Bool-cases (k == id)) [
        | inl this ↦
            let first' : recover_row c.now q id ≡ ok r =
              subst (λ x. recover_row c.now q x ≡ ok r) ((eq_iff k id).0 this) first in
            recover_each-IsFresh ids r rest
              (inr (recover_found-gives (lookup id q.jobs) q refl first'))
        | inr other ↦ recover_each-IsFresh ids r rest (inl (ground arith))
      ]

  has-ids_of : (rows : List Row) → has (ids_of rows) ≡ any (λ (r : Row). r.0 == id) rows
  has-ids_of [] = refl
  has-ids_of (r ∷ rows) = ground (arith, has-ids_of rows)

  listed-keep :
      (p : Row → Bool) (m : Table Job) {j : Job}
      → lookup id m ≡ some j
      → p (id, j) ≡ true
      → any (λ (r : Row). r.0 == id) (keep p m) ≡ true
  unfolding lookup
  listed-keep p [] h pass = cc
  listed-keep p ((k, v) ∷ m) {j} h pass = elim (Bool-cases (k == id)) [
    | inl this ↦
        let at : k ≡ id = (eq_iff k id).0 this in
        let row : v ≡ j = ground arith in
        let passes : p (k, v) ≡ true = rw (at, row) pass in rw passes (ground arith)
    | inr other ↦
        let rest = listed-keep p m {j = j} (ground arith) pass in
        elim (Bool-cases (p (k, v))) [
          | inl kept ↦ rw kept (ground (arith, rest))
          | inr gone ↦ rw gone rest
        ]
  ]

  -- The recovery finds the job, if its lease has ended.
  selected_or_IsFresh :
      (db : Database) (q : Queue)
      → db.is_free id ≡ true
      → (has (expired_ids db c q.jobs) ≡ true) ⊎ IsFresh q
  unfolding expired_ids
  selected_or_IsFresh db q free = elim (Option-cases (lookup id q.jobs)) [
    | inl missing ↦ inr (λ j h. cc)
    | inr (j, found) ↦ elim (Bool-cases (is_expired c.now c.queue j)) [
      | inl over ↦
          let picked = is_picked db (is_expired c.now c.queue) in
          inl (
            has-ids_of (sort (expires_first db) (keep picked q.jobs))
            ∙ any-sort (expires_first db) (λ (r : Row). r.0 == id) (keep picked q.jobs)
            ∙ listed-keep picked q.jobs found (ground arith))
      | inr lasting ↦ inr (λ l h.
          let one : l ≡ j = cc in subst (λ x. is_expired c.now c.queue x ≡ false) (sym one) lasting)
    ]
  ]

  claim_found-IsFresh :
      (k : String) (o : Option Job) (q : Queue) {t : Queue}
      → ltb 0 c.lease_ms ≡ true
      → claim_found c k o q ≡ ok t
      → IsFresh q
      → IsFresh t
  claim_found-IsFresh k none q lease h fresh = subst IsFresh (ok-injective h) fresh
  claim_found-IsFresh k (some j) q {t} lease h fresh =
      adjust-IsFresh k (locked c) q t (claim_found-eq-ok c k j q h).jobs (locked-fresh lease) fresh

  claim_each-IsFresh :
      (ids : List String) (q : Queue) {t : Queue}
      → ltb 0 c.lease_ms ≡ true
      → each (claim_row c) ids q ≡ ok t
      → IsFresh q
      → IsFresh t
  unfolding claim_row
  claim_each-IsFresh [] q lease h fresh = subst IsFresh (ok-injective h) fresh
  claim_each-IsFresh (k ∷ ids) q lease h fresh =
      let (r, first, rest) = >>=-eq-ok (claim_row c q k) _ h in
      claim_each-IsFresh ids r lease rest
        (claim_found-IsFresh k (lookup k q.jobs) q lease first fresh)

claim-leases :
    (db : Database) (c : Claim) (q : Queue) {r : List String × Queue}
    → claim db c q ≡ ok r
    → ltb 0 c.lease_ms ≡ true
unfolding claim check_claim
claim-leases db c q h =
    let (u, checked, rest) = >>=-eq-ok (check_claim c) _ h in
    let (worker, queue) = guard-eq-ok (is_bounded c.worker_id 128) _ _ checked in
    let (queued, lease) = guard-eq-ok (is_bounded c.queue 64) _ _ queue in
    (guard-eq-ok (ltb 0 c.lease_ms) _ _ lease).0

-- After a claim no job of its queue, but one that another transaction locks, is still held under a
-- lease that has ended: the claim took it back, and then perhaps locked it anew.
pub claim-ends_leases :
    (db : Database) (c : Claim) (q t : Queue) (ids : List String) (id : String) (j : Job)
    → claim db c q ≡ ok (ids, t)
    → db.is_free id ≡ true
    → lookup id t.jobs ≡ some j
    → is_expired c.now c.queue j ≡ false
unfolding recover_expired
claim-ends_leases db c q t ids id j h free found =
    let (r, recovered, _e, looped) = claim-eq-ok db c q h in
    let fresh =
      recover_each-IsFresh c id (expired_ids db c q.jobs) q recovered
        (selected_or_IsFresh c id db q free) in
    claim_each-IsFresh c id (claimable_ids db c r.jobs) r (claim-leases db c q h) looped fresh j
      found
