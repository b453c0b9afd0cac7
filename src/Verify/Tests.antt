-- ===== src/Verify/Tests.antt =====
-- Answers of ClickHouse, and a network that gives them, for the tests.
use vikasa_demo.Base.{ℕ, ◌+◌, ◌≡◌, refl, ◌↔◌, true, false, String, [], some, ok, ℤ, pos, negsuc}
use vikasa_demo.Verify.Answers.{bad_count, parse_count, parse_dedup_counts, is_space}
use vikasa_demo.Verify.Network.{Network, answered}
use vikasa_demo.Verify.Checks.{
  Deps, baseline_checks, check_recent_events, check_heartbeat_freshness, check_dead_letters,
  run_checks, run_dedup, is_zero, minus_int64,
}
use vikasa_demo.Verify.Checks.Outcomes.{StopsAt, run_checks_error}
use vikasa_demo.Verify.Checks.Dedup.{run_dedup_exact}

count_of_answer : parse_count " 42\n" ≡ ok (pos 42)
unfolding parse_count is_space
count_of_answer = refl

dedup_of_answer : parse_dedup_counts "12\t-3\n" ≡ ok (pos 12, negsuc 2)
unfolding parse_dedup_counts is_space
dedup_of_answer = refl

-- a server that gives the same answer to everything
abbrev pub always : String → Network
always answer = record {
  State = ℕ;
  post = λ url body n. (n + 1, answered 200 (some answer));
  get = λ url n. (n + 1, answered 200 (some answer));
  print_int = λ x. "7";
}

abbrev deps : Deps
deps = record { ch = "http://localhost:8123/"; db = "vikasa_mardot"; expect_stale = false }

run_checks_error_example :
    StopsAt (always "three") (baseline_checks (always "three")) deps 0 1 [] (bad_count "three")
unfolding check_recent_events check_heartbeat_freshness check_dead_letters run_checks is_space
run_checks_error_example =
    run_checks_error (always "three") (baseline_checks (always "three")) deps 0 1 []
      (bad_count "three") refl

run_dedup_exact_example :
    (is_zero (minus_int64 (pos 3) (pos 3)) ≡ true) ↔ (◌≡◌ {A = ℤ} (pos 3) (pos 3))
unfolding run_dedup is_space
run_dedup_exact_example =
    run_dedup_exact (always "3\t3\n") deps 0 2
      (record { count = pos 3; distinct = pos 3; diff = minus_int64 (pos 3) (pos 3) }) refl
