-- ===== src/Throttle.antt =====
-- modules/identity-access/src/authentication-throttle.js: the rows of failed attempts, by scope and
-- by the hash of the subject, as the SQL text of the throttle changes and reads them. Times are
-- milliseconds. The hashes of an email and of a network, which an HMAC makes, are arguments.
pub mod Bounds
pub mod Blocks
mod Tests
use crm_silmer.Base.{
  ltb, leb, if◌then◌else◌, count, Table, lookup, put, ℕ, ◌+◌, ◌-◌, ◌*◌, ◌^◌, String, Bool, Option,
  none, some,
}

pub data Scope : Type 0 where
  account network : Scope

pub record Policy : Type 0 where
  pub base_delay_seconds : ℕ
  pub maximum_delay_seconds : ℕ
  pub threshold : ℕ

-- `POLICIES`
abbrev pub policy_of : Scope → Policy
policy_of account = record { base_delay_seconds = 30; maximum_delay_seconds = 900; threshold = 3 }
policy_of network = record { base_delay_seconds = 60; maximum_delay_seconds = 900; threshold = 20 }

-- `WINDOW_MS`
abbrev pub window_ms : ℕ
window_ms = 900000

pub record Row : Type 0 where
  pub failure_count : ℕ
  pub window_started_at : ℕ
  pub blocked_until : Option ℕ
  pub updated_at : ℕ

-- The rows of the two scopes, each by subject hash.
pub record Rows : Type 0 where
  pub account_rows : Table Row
  pub network_rows : Table Row

pub record Subject : Type 0 where
  pub account_hash : String
  pub network_hash : String

abbrev pub min : ℕ → ℕ → ℕ
min a b = if leb a b then a else b

-- `throttle.updated_at < $4`
abbrev pub is_stale : Row → ℕ → Bool
is_stale r now = ltb (r.updated_at + window_ms) now

unfoldable pub next_count : Option Row → ℕ → ℕ
next_count none now = 1
next_count (some r) now = if is_stale r now then 1 else r.failure_count + 1

abbrev pub next_window : Option Row → ℕ → ℕ
next_window none now = now
next_window (some r) now = if is_stale r now then now else r.window_started_at

-- A first failure blocks nothing; a later one blocks from the threshold on.
unfoldable pub delay_seconds : Policy → ℕ → ℕ
delay_seconds p count =
    min p.maximum_delay_seconds (p.base_delay_seconds * 2 ^ (count - p.threshold))

unfoldable pub next_block : Policy → Option Row → ℕ → ℕ → Option ℕ
next_block p none count now = none
next_block p (some r) count now =
    if leb p.threshold count then some (now + 1000 * delay_seconds p count) else none

-- PostgreSQL refuses the statement when the product is no `integer`.
unfoldable pub is_integer_delay : Policy → ℕ → Bool
is_integer_delay p count = ltb (p.base_delay_seconds * 2 ^ (count - p.threshold)) 2147483648

-- The row after a failure.
unfoldable pub failed_row : Policy → Option Row → ℕ → Row
unfolding next_count next_block delay_seconds
failed_row p row now =
    let count = next_count row now in
    record {
      failure_count = count;
      window_started_at = next_window row now;
      blocked_until = next_block p row count now;
      updated_at = now;
    }

unfoldable pub record_scope : Policy → String → ℕ → Table Row → Option (Table Row)
record_scope p hash now rows =
    let row = lookup hash rows in
    if is_integer_delay p (next_count row now)
    then some (put hash (failed_row p row now) rows)
    else none

-- `recordFailure`; `none` when a statement is refused.
unfoldable pub record_failure : Subject → ℕ → Rows → Option Rows
record_failure s now rows =
    elim (record_scope (policy_of account) s.account_hash now rows.account_rows) [
      | none ↦ none
      | some accounts ↦
          elim (record_scope (policy_of network) s.network_hash now rows.network_rows) [
            | none ↦ none
            | some networks ↦ some (record { account_rows = accounts; network_rows = networks })
          ]
    ]

abbrev pub blocked_at : Option Row → ℕ → Option ℕ
blocked_at none now = none
blocked_at (some r) now = elim r.blocked_until [
  | none ↦ none
  | some t ↦ if ltb now t then some t else none
]

abbrev pub latest : Option ℕ → Option ℕ → Option ℕ
latest none b = b
latest (some a) none = some a
latest (some a) (some b) = some (if leb a b then b else a)

-- `check`: when a subject that is not allowed may come again.
unfoldable pub check : Subject → ℕ → Rows → Option ℕ
unfolding lookup
check s now rows =
    latest (blocked_at (lookup s.account_hash rows.account_rows) now)
      (blocked_at (lookup s.network_hash rows.network_rows) now)
