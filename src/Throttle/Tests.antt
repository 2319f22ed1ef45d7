-- ===== src/Throttle/Tests.antt =====
-- Four failures of one account from one network.
use crm_silmer.Base.{is_some, lookup, put, ◌≡◌, refl, true, none, some, List, [], ◌∷◌, arith}
use crm_silmer.Throttle.{
  Row, Rows, Subject, next_count, delay_seconds, next_block, is_integer_delay, failed_row,
  record_scope, record_failure, check,
}
use crm_silmer.Throttle.Bounds.{Failure, run, no_rows, check-run}
use crm_silmer.Throttle.Blocks.{check-record_failure}

abbrev someone : Subject
someone = record { account_hash = "a"; network_hash = "n" }

abbrev failures : List Failure
failures =
    record { subject = someone; now = 1000 }
    ∷ record { subject = someone; now = 2000 }
    ∷ record { subject = someone; now = 3000 }
    ∷ []

check-run_example : check someone 903000 (run no_rows failures) ≡ none
check-run_example =
    check-run 3000 903000 failures someone (omega arith, (omega arith, (omega arith, tt)))
      (omega arith)

abbrev second : Row
second = record {
  failure_count = 2;
  window_started_at = 1000;
  blocked_until = none;
  updated_at = 2000;
}

abbrev twice : Rows
twice = record { account_rows = ("a", second) ∷ []; network_rows = [] }

abbrev thrice : Rows
thrice = record {
  account_rows =
      (
        "a",
        record {
          failure_count = 3;
          window_started_at = 1000;
          blocked_until = some 33000;
          updated_at = 3000;
        },
      )
      ∷ [];
  network_rows =
      (
        "n",
        record {
          failure_count = 1;
          window_started_at = 3000;
          blocked_until = none;
          updated_at = 3000;
        },
      )
      ∷ [];
}

record_third : record_failure someone 3000 twice ≡ some thrice
unfolding record_failure record_scope is_integer_delay failed_row next_count next_block
    delay_seconds lookup put
record_third = refl

check-record_failure_example : is_some (check someone 32999 thrice) ≡ true
unfolding lookup
check-record_failure_example =
    check-record_failure someone 3000 32999 twice thrice second refl refl (omega arith) record_third
      (omega arith)
