-- ===== src/Verify/Checks.antt =====
-- internal/verify/checks.go: the checks, and their two runs.
pub mod Dedup
pub mod Outcomes
use vikasa_demo.Base.{
  ℕ, ◌+◌, ◌-◌, ◌%◌, ◌^◌, Bool, true, false, not, String, List, [], ◌∷◌, Option, none, some,
  if◌then◌else◌, leb, ltb, ◌==◌, texts, ℤ, pos, negsuc, Result, ok, err,
}
use vikasa_demo.Verify.Answers.{VerifyError, bad_optimize, parse_count, parse_dedup_counts}
use vikasa_demo.Verify.Network.{Network, Live, ◌>>=◌, pure, ch_query}
use vikasa_demo.Verify.Queries.{
  recent_events_query, heartbeat_freshness_query, dead_letter_query, optimize_events_raw_query,
  dedup_counts_query,
}

-- in seconds
abbrev pub heartbeat_freshness_threshold : ℕ
heartbeat_freshness_threshold = 45

pub record Deps : Type 0 where
  pub ch : String
  pub db : String
  pub expect_stale : Bool

pub record CheckResult : Type 0 where
  pub name : String
  pub passes : Bool
  pub detail : String

pub record DedupResult : Type 0 where
  pub count : ℤ
  pub distinct : ℤ
  pub diff : ℤ

abbrev pub is_positive : ℤ → Bool
is_positive (pos n) = ltb 0 n
is_positive (negsuc n) = false

abbrev pub is_zero : ℤ → Bool
is_zero (pos n) = n == 0
is_zero (negsuc n) = false

abbrev pub at_most : ℤ → ℕ → Bool
at_most (pos n) most = leb n most
at_most (negsuc n) most = true

-- the difference of two int64, which wraps around
abbrev pub bits : ℤ → ℕ
bits (pos n) = n % 2 ^ 64
bits (negsuc n) = 2 ^ 64 - 1 - n % 2 ^ 64

abbrev pub of_bits : ℕ → ℤ
of_bits n = if ltb n (2 ^ 63) then pos n else negsuc (2 ^ 64 - 1 - n)

unfoldable pub minus_int64 : ℤ → ℤ → ℤ
minus_int64 a b = of_bits ((bits a + (2 ^ 64 - bits b)) % 2 ^ 64)

module _ (N : Network) where
  open N use {State, print_int}

  abbrev pub Check : Type 0
  Check = Deps → Live State VerifyError CheckResult

  abbrev pub recent_of : ℤ → CheckResult
  recent_of n = record {
    name = "recent-events";
    passes = is_positive n;
    detail =
        texts ("events_raw rows with ce_time in last 2m = " ∷ print_int n ∷ " (want > 0)" ∷ []);
  }

  unfoldable pub check_recent_events : Check
  unfolding ch_query parse_count
  check_recent_events deps = do
    out ← ch_query N deps.ch (recent_events_query deps.db)
    n ← pure (parse_count out)
    pure (ok (recent_of n))

  abbrev pub freshness_of : Bool → ℤ → CheckResult
  freshness_of expect_stale age =
      let fresh = at_most age heartbeat_freshness_threshold in
      if expect_stale
      then (record {
        name = "heartbeat-freshness[expect-stale]";
        passes = not fresh;
        detail = texts (
            "max(ingested_at) age = " ∷ print_int age ∷ "s (want > 45s: gap must be visible)" ∷ []);
      })
      else (record {
        name = "heartbeat-freshness";
        passes = fresh;
        detail = texts ("max(ingested_at) age = " ∷ print_int age ∷ "s (want <= 45s)" ∷ []);
      })

  unfoldable pub check_heartbeat_freshness : Check
  unfolding ch_query parse_count
  check_heartbeat_freshness deps = do
    out ← ch_query N deps.ch (heartbeat_freshness_query deps.db)
    age ← pure (parse_count out)
    pure (ok (freshness_of deps.expect_stale age))

  abbrev pub dead_letters_of : ℤ → CheckResult
  dead_letters_of n = record {
    name = "dead-letters";
    passes = is_zero n;
    detail =
        texts ("events_dead_letter rows received in last 1h = " ∷ print_int n ∷ " (want 0)" ∷ []);
  }

  unfoldable pub check_dead_letters : Check
  unfolding ch_query parse_count
  check_dead_letters deps = do
    out ← ch_query N deps.ch (dead_letter_query deps.db)
    n ← pure (parse_count out)
    pure (ok (dead_letters_of n))

  abbrev pub baseline_checks : List Check
  unfolding check_recent_events check_heartbeat_freshness check_dead_letters
  baseline_checks = check_recent_events ∷ check_heartbeat_freshness ∷ check_dead_letters ∷ []

  -- the loop of RunBaseline: the results so far, and the error that ended it
  unfoldable pub run_checks :
      List Check → Deps → State → State × (List CheckResult × Option VerifyError)
  run_checks [] deps s = (s, ([], none))
  run_checks (check ∷ checks) deps s =
      let (s1, r) = check deps s in
      elim r [
        | err e ↦ (s1, ([], some e))
        | ok result ↦
            let (s2, (results, error)) = run_checks checks deps s1 in
            (s2, (result ∷ results, error))
      ]

  unfoldable pub run_baseline : Deps → State → State × (List CheckResult × Option VerifyError)
  unfolding run_checks
  run_baseline = run_checks baseline_checks

  abbrev optimized : Result VerifyError String → Result VerifyError String
  optimized (ok out) = ok out
  optimized (err e) = err (bad_optimize e)

  unfoldable pub optimize : Deps → Live State VerifyError String
  unfolding ch_query
  optimize deps s =
      let (s1, r) = ch_query N deps.ch (optimize_events_raw_query deps.db) s in (s1, optimized r)

  unfoldable pub run_dedup : Deps → Live State VerifyError DedupResult
  unfolding optimize ch_query parse_dedup_counts minus_int64
  run_dedup deps = do
    _ ← optimize deps
    out ← ch_query N deps.ch (dedup_counts_query deps.db)
    counts ← pure (parse_dedup_counts out)
    let (count, distinct) = counts
    pure (ok (record { count = count; distinct = distinct; diff = minus_int64 count distinct }))
