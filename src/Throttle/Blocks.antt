-- ===== src/Throttle/Blocks.antt =====
-- When the throttle blocks an account.
use Prim.Native.Nat.pow
use crm_silmer.Base.{
  is_some, count, lookup, put, lookup-put, ℕ, zero, suc, ◌+◌, ◌-◌, ◌*◌, ◌^◌, ◌≤◌, ◌<◌, ◌≡◌, refl,
  true, false, Option, none, some, arith, eq_iff,
}
use crm_silmer.Throttle.{
  account, policy_of, Row, Rows, Subject, min, is_stale, next_count, delay_seconds, next_block,
  failed_row, record_scope, record_failure, blocked_at, latest, check,
}
use crm_silmer.Throttle.Bounds.{record_failure-eq-some}

power_pos : (k : ℕ) → 1 ≤ 2 ^ k
power_pos zero = omega arith
power_pos (suc k) = omega (arith, power_pos k, pow.suc 2 k)

delay_seconds-ge : (count : ℕ) → 30 ≤ delay_seconds (policy_of account) count
unfolding delay_seconds
delay_seconds-ge count = atleast (2 ^ (count - 3)) (power_pos (count - 3))
  where
    atleast : (x : ℕ) → 1 ≤ x → 30 ≤ min 900 (30 * x)
    atleast x h = ground arith

failed_row-blocks :
    (r : Row) (now later : ℕ)
    → is_stale r now ≡ false
    → 2 ≤ r.failure_count
    → later < now + 30000
    → is_some (blocked_at (some (failed_row (policy_of account) (some r) now)) later) ≡ true
unfolding failed_row next_count next_block
failed_row-blocks r now later fresh count soon =
    ground (arith, fresh, count, delay_seconds-ge (r.failure_count + 1))

latest-some : (a b : Option ℕ) → is_some a ≡ true → is_some (latest a b) ≡ true
latest-some (some a) none h = refl
latest-some (some a) (some b) h = refl
latest-some none b h = cc

-- When an account has failed twice at least, and its last failure is at most fifteen minutes old,
-- the next failure that is recorded blocks it: for thirty seconds at least no attempt on it is
-- allowed.
pub check-record_failure :
    (s : Subject) (now later : ℕ) (rows next : Rows) (r : Row)
    → lookup s.account_hash rows.account_rows ≡ some r
    → is_stale r now ≡ false
    → 2 ≤ r.failure_count
    → record_failure s now rows ≡ some next
    → later < now + 30000
    → is_some (check s later next) ≡ true
unfolding check record_scope
check-record_failure s now later rows next r found fresh twice h soon =
    let row = failed_row (policy_of account) (some r) now in
    let accounts = (record_failure-eq-some s now rows next h).0 in
    let stored : put s.account_hash row rows.account_rows ≡ next.account_rows =
      ground (arith, accounts, found) in
    let at : lookup s.account_hash next.account_rows ≡ some row = ground (
      arith,
      stored,
      lookup-put s.account_hash s.account_hash row rows.account_rows,
      eq_iff s.account_hash s.account_hash,
    ) in
    latest-some (blocked_at (lookup s.account_hash next.account_rows) later)
      (blocked_at (lookup s.network_hash next.network_rows) later)
      (rw at (failed_row-blocks r now later fresh twice soon))
