-- ===== src/Jobs/Claims.antt =====
-- `claim` keeps the rows safe: the leases that ended first, then the loop over the selected jobs.
use crm_silmer.Base.{
  ok, >>=-eq-ok, ok-injective, guard-eq-ok, all, keep, All, Table, lookup, put, sort, ℕ, ◌+◌,
  String, ◌≡◌, sym, ap, ◌∙◌, subst, false, not, some, List, [], ◌∷◌, arith, eq_iff,
}
use crm_silmer.Jobs.{Job, Queue, adjust}
use crm_silmer.Jobs.Rows.{
  recover_row, Claim, is_claimable, locked, new_attempt, is_taken, claim_found, claim_row, each,
}
use crm_silmer.Jobs.Commands.{
  Database, Row, ids_of, take, runs_first, is_picked, expired_ids, recover_expired, claimable_ids,
  check_claim, claim,
}
use crm_silmer.Jobs.Tables.{lookup-adjust}
use crm_silmer.Jobs.Turns.{claim-IsSafe}
use crm_silmer.Jobs.Expired.{mark_event-jobs, mark_event-attempts, AreSafe, recover_row-AreSafe}
use crm_silmer.Jobs.Selected.{has_id, AreDistinct, Stands, Stands-select}

recover_each-AreSafe :
    (now : ℕ) (ids : List String) (q : Queue) {t : Queue}
    → AreSafe q
    → each (recover_row now) ids q ≡ ok t
    → AreSafe t
recover_each-AreSafe now [] q s h = subst AreSafe (ok-injective h) s
recover_each-AreSafe now (id ∷ ids) q s h =
    let (r, first, rest) = >>=-eq-ok (recover_row now q id) _ h in
    recover_each-AreSafe now ids r (recover_row-AreSafe now q id s first) rest

pub recover_expired-AreSafe :
    (db : Database) (c : Claim) (q : Queue) {t : Queue}
    → AreSafe q
    → recover_expired db c q ≡ ok t
    → AreSafe t
unfolding recover_expired
recover_expired-AreSafe db c q s h = recover_each-AreSafe c.now (expired_ids db c q.jobs) q s h

module _ (c : Claim) where
  abbrev AreClaimable : Queue → List Row → Type 0
  AreClaimable q rows = All (Stands q.jobs (is_claimable c)) rows × AreDistinct rows

  -- What a turn writes.
  pub record Claimed (q : Queue) (id : String) (j : Job) (t : Queue) : Type 0 where
    pub free : is_taken (c.attempt_ids id) id (j.attempt_count + 1) q.attempts ≡ false
    pub jobs : t.jobs ≡ adjust id (locked c) q.jobs
    pub attempts :
        t.attempts ≡ put (c.attempt_ids id) (new_attempt c id (j.attempt_count + 1)) q.attempts

  pub claim_found-eq-ok :
      (id : String) (j : Job) (q : Queue) {t : Queue}
      → claim_found c id (some j) q ≡ ok t
      → Claimed q id j t
  claim_found-eq-ok id j q {t} h =
      let (free, done) =
        guard-eq-ok (not (is_taken (c.attempt_ids id) id (j.attempt_count + 1) q.attempts)) _ _ h in
      let e = ok-injective done in
      record {
        free = ground arith;
        jobs = ap (λ (r : Queue). r.jobs) (sym e) ∙ mark_event-jobs j.channel_event_id _ _;
        attempts =
            ap (λ (r : Queue). r.attempts) (sym e) ∙ mark_event-attempts j.channel_event_id _ _;
      }

  pub claim_row-eq-ok :
      (id : String) (j : Job) (q : Queue) {t : Queue}
      → lookup id q.jobs ≡ some j
      → claim_row c q id ≡ ok t
      → Claimed q id j t
  unfolding claim_row
  claim_row-eq-ok id j q {t} at_job h =
      claim_found-eq-ok id j q (subst (λ o. claim_found c id o q ≡ ok t) at_job h)

  still-Stands :
      (id : String) (jobs : Table Job) (rows : List Row)
      → has_id id rows ≡ false
      → All (Stands jobs (is_claimable c)) rows
      → All (Stands (adjust id (locked c) jobs) (is_claimable c)) rows
  still-Stands id jobs [] h all = tt
  still-Stands id jobs (r ∷ rows) h all = (
    (
      ground (arith, lookup-adjust id r.0 (locked c) jobs, all.0.0, eq_iff r.0 id, eq_iff id r.0),
      all.0.1,
    ),
    still-Stands id jobs rows (ground arith) all.1,
  )

  claim_each-AreSafe :
      (rows : List Row) (q : Queue) {t : Queue}
      → AreClaimable q rows
      → AreSafe q
      → each (claim_row c) (ids_of rows) q ≡ ok t
      → AreSafe t
  claim_each-AreSafe [] q fine s h = subst AreSafe (ok-injective h) s
  claim_each-AreSafe ((id, j) ∷ rows) q fine s h =
      let (r, first, rest) = >>=-eq-ok (claim_row c q id) _ h in
      let wrote = claim_row-eq-ok id j q fine.0.0.0 first in
      let kept : AreSafe r =
        rw (wrote.jobs, wrote.attempts)
          (claim-IsSafe q.jobs q.attempts id j fine.0.0.0 s c (c.attempt_ids id) (ground arith)
            (ground arith) wrote.free) in
      claim_each-AreSafe rows r
        (rw wrote.jobs (still-Stands id q.jobs rows fine.1.0 fine.0.1), fine.1.1) kept rest

  pub claim_loop-AreSafe :
      (db : Database) (q : Queue) {t : Queue}
      → AreSafe q
      → each (claim_row c) (claimable_ids db c q.jobs) q ≡ ok t
      → AreSafe t
  unfolding claimable_ids
  claim_loop-AreSafe db q s h =
      claim_each-AreSafe
        (take c.limit (sort (runs_first db) (keep (is_picked db (is_claimable c)) q.jobs))) q
        (Stands-select db (is_claimable c) (runs_first db) q.jobs s.jobs_keyed c.limit) s h

-- What a successful claim went through.
pub claim-eq-ok :
    (db : Database) (c : Claim) (q : Queue) {ids : List String} {t : Queue}
    → claim db c q ≡ ok (ids, t)
    → (r : Queue) × (recover_expired db c q ≡ ok r)
      × (ids ≡ claimable_ids db c r.jobs)
      × (each (claim_row c) (claimable_ids db c r.jobs) r ≡ ok t)
unfolding claim
claim-eq-ok db c q {ids} {t} h =
    let (_u, checked, after_check) = >>=-eq-ok (check_claim c) _ h in
    let (r, recovered, claiming) = >>=-eq-ok (recover_expired db c q) _ after_check in
    let (u, looped, done) =
      >>=-eq-ok (each (claim_row c) (claimable_ids db c r.jobs) r) _ claiming in
    let e = ok-injective done in
    (
      r,
      recovered,
      sym (ap (λ (p : List String × Queue). p.0) e),
      looped ∙ ap ok (ap (λ (p : List String × Queue). p.1) e),
    )

pub claim-AreSafe :
    (db : Database) (c : Claim) (q : Queue) {ids : List String} {t : Queue}
    → AreSafe q
    → claim db c q ≡ ok (ids, t)
    → AreSafe t
claim-AreSafe db c q s h =
    let (r, recovered, _e, looped) = claim-eq-ok db c q h in
    claim_loop-AreSafe c db r (recover_expired-AreSafe db c q s recovered) looped
