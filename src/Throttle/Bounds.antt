-- ===== src/Throttle/Bounds.antt =====
-- How long the throttle blocks.
use crm_silmer.Base.{
  ltb, text_eq, nat_eq, ◌==◌, if◌then◌else◌, Bool-cases, count, All, Table, lookup, put, lookup-put,
  ℕ, ◌+◌, ◌-◌, ◌*◌, ◌^◌, ◌≤◌, String, ◌≡◌, refl, subst, inl, inr, Option, none, some, List, [], ◌∷◌,
  arith,
}
use crm_silmer.Throttle.{
  Scope, account, network, Policy, policy_of, window_ms, Row, Rows, Subject, min, next_count,
  delay_seconds, next_block, failed_row, record_scope, record_failure, blocked_at, check,
}

-- No row blocks longer than a window after a time.
abbrev EndsBy : ℕ → Option Row → Type 0
EndsBy latest_failure none = Unit
EndsBy latest_failure (some r) = (t : ℕ) → r.blocked_until ≡ some t → t ≤ latest_failure + window_ms

abbrev AllEndBy : ℕ → Table Row → Type 0
AllEndBy latest_failure rows = (hash : String) → EndsBy latest_failure (lookup hash rows)

delay_seconds-le : (p : Policy) (count : ℕ) → delay_seconds p count ≤ p.maximum_delay_seconds
unfolding delay_seconds
delay_seconds-le p count =
    least p.maximum_delay_seconds (p.base_delay_seconds * 2 ^ (count - p.threshold))
  where
    least : (a b : ℕ) → min a b ≤ a
    least a b = ground arith

next_block-EndsBy :
    (p : Policy) (row : Option Row) (count now latest_failure t : ℕ)
    → p.maximum_delay_seconds ≤ 900
    → now ≤ latest_failure
    → next_block p row count now ≡ some t
    → t ≤ latest_failure + window_ms
unfolding next_block
next_block-EndsBy p none count now latest_failure t small before h = absurd (ground arith)
next_block-EndsBy p (some r) count now latest_failure t small before h =
    ground (arith, delay_seconds-le p count)

policy_of-small : (scope : Scope) → (policy_of scope).maximum_delay_seconds ≤ 900
policy_of-small account = omega arith
policy_of-small network = omega arith

record_scope-AllEndBy :
    (scope : Scope) (hash : String) (now latest_failure : ℕ) (rows next : Table Row)
    → now ≤ latest_failure
    → AllEndBy latest_failure rows
    → record_scope (policy_of scope) hash now rows ≡ some next
    → AllEndBy latest_failure next
unfolding record_scope failed_row
record_scope-AllEndBy scope hash now latest_failure rows next before a h j =
    let p = policy_of scope in
    let row = lookup hash rows in
    let e : put hash (failed_row p row now) rows ≡ next = ground (arith, h) in
    let found = lookup-put hash j (failed_row p row now) rows in
    subst (λ x. EndsBy latest_failure (lookup j x)) e
      (elim (Bool-cases (hash == j)) [
        | inl same ↦
            let at : some (failed_row p row now) ≡ lookup j (put hash (failed_row p row now) rows) =
              ground (arith, found, same) in
            subst (EndsBy latest_failure) at λ t b.
              next_block-EndsBy p row (next_count row now) now latest_failure t
                (policy_of-small scope) before b
        | inr differs ↦
            let at : lookup j rows ≡ lookup j (put hash (failed_row p row now) rows) =
              ground (arith, found, differs) in
            subst (EndsBy latest_failure) at (a j)
      ])

record RowsEndBy (latest_failure : ℕ) (rows : Rows) : Type 0 where
  accounts : AllEndBy latest_failure rows.account_rows
  networks : AllEndBy latest_failure rows.network_rows

-- A failure of a subject at a time, and the rows after several; a refused statement changes
-- nothing.
pub record Failure : Type 0 where
  pub subject : Subject
  pub now : ℕ

abbrev kept_or : Rows → Option Rows → Rows
kept_or rows none = rows
kept_or rows (some next) = next

unfoldable pub run : Rows → List Failure → Rows
run rows [] = rows
run rows (f ∷ fs) = run (kept_or rows (record_failure f.subject f.now rows)) fs

abbrev pub no_rows : Rows
no_rows = record { account_rows = []; network_rows = [] }

pub record_failure-eq-some :
    (s : Subject) (now : ℕ) (rows next : Rows)
    → record_failure s now rows ≡ some next
    → (record_scope (policy_of account) s.account_hash now rows.account_rows
        ≡ some next.account_rows)
      × (record_scope (policy_of network) s.network_hash now rows.network_rows
          ≡ some next.network_rows)
unfolding record_failure
record_failure-eq-some s now rows next =
    both (record_scope (policy_of account) s.account_hash now rows.account_rows)
      (record_scope (policy_of network) s.network_hash now rows.network_rows)
  where
    both :
        (o p : Option (Table Row))
        → elim o [
          | none ↦ none
          | some t ↦ elim p [
            | none ↦ none
            | some n ↦ some (record { account_rows = t; network_rows = n })
          ]
        ]
          ≡ some next
        → (o ≡ some next.account_rows) × (p ≡ some next.network_rows)
    both none p = λ x. absurd (ground arith)
    both (some t) none = λ x. absurd (ground arith)
    both (some t) (some n) = λ x. (ground (arith, x), ground (arith, x))

record_failure-RowsEndBy :
    (s : Subject) (now latest_failure : ℕ) (rows next : Rows)
    → now ≤ latest_failure
    → RowsEndBy latest_failure rows
    → record_failure s now rows ≡ some next
    → RowsEndBy latest_failure next
record_failure-RowsEndBy s now latest_failure rows next before a h =
    let (accounts, networks) = record_failure-eq-some s now rows next h in
    record {
      accounts =
          record_scope-AllEndBy account s.account_hash now latest_failure rows.account_rows
            next.account_rows before a.accounts accounts;
      networks =
          record_scope-AllEndBy network s.network_hash now latest_failure rows.network_rows
            next.network_rows before a.networks networks;
    }

kept_or-RowsEndBy :
    (s : Subject) (now latest_failure : ℕ) (rows : Rows) (o : Option Rows)
    → now ≤ latest_failure
    → RowsEndBy latest_failure rows
    → record_failure s now rows ≡ o
    → RowsEndBy latest_failure (kept_or rows o)
kept_or-RowsEndBy s now latest_failure rows none before a h = a
kept_or-RowsEndBy s now latest_failure rows (some next) before a h =
    record_failure-RowsEndBy s now latest_failure rows next before a h

run-RowsEndBy :
    (latest_failure : ℕ) (fs : List Failure) (rows : Rows)
    → All (λ f. Failure.now f ≤ latest_failure) fs
    → RowsEndBy latest_failure rows
    → RowsEndBy latest_failure (run rows fs)
unfolding run
run-RowsEndBy latest_failure [] rows before a = a
run-RowsEndBy latest_failure (f ∷ fs) rows before a = run-RowsEndBy latest_failure fs _ before.1 (
    kept_or-RowsEndBy f.subject f.now latest_failure rows (record_failure f.subject f.now rows)
      before.0 a refl)

blocked_at-none :
    (row : Option Row) (latest_failure now : ℕ)
    → EndsBy latest_failure row
    → latest_failure + window_ms ≤ now
    → blocked_at row now ≡ none
blocked_at-none none latest_failure now a h = refl
blocked_at-none (some r) latest_failure now a h = blocked r.blocked_until a
  where
    blocked :
        (o : Option ℕ)
        → ((t : ℕ) → o ≡ some t → t ≤ latest_failure + window_ms)
        → elim o [ none ↦ none | some t ↦ if ltb now t then some t else none ] ≡ none
    blocked none a = refl
    blocked (some t) a = ground (arith, a t refl)

-- After any failures of any subjects, none later than a time, every subject is allowed again from
-- fifteen minutes after that time on.
pub check-run :
    (latest_failure now : ℕ) (fs : List Failure) (s : Subject)
    → All (λ f. Failure.now f ≤ latest_failure) fs
    → latest_failure + window_ms ≤ now
    → check s now (run no_rows fs) ≡ none
unfolding check
check-run latest_failure now fs s before h =
    let nothing : RowsEndBy latest_failure no_rows = record {
      accounts = λ hash. tt;
      networks = λ hash. tt;
    } in
    let a = run-RowsEndBy latest_failure fs no_rows before nothing in
    let rows = run no_rows fs in
    ground (
      arith,
      blocked_at-none (lookup s.account_hash rows.account_rows) latest_failure now
          (a.accounts s.account_hash) h,
      blocked_at-none (lookup s.network_hash rows.network_rows) latest_failure now
          (a.networks s.network_hash) h,
    )
