-- ===== src/Tour/Phase/Answers.antt =====
-- The checks of internal/verify/checks.go and the questions of internal/tour, each as one number that
-- is asked for.
use vikasa_demo.Base.{
  ◌≡◌, refl, inl, inr, String, List, [], ◌∷◌, Option, some, Result, ok, err, Result-cases, ℤ,
}
use vikasa_demo.Verify.Answers.{VerifyError, parse_count}
use vikasa_demo.Verify.Network.{Live, continue_with, ◌>>=◌, pure, ch_query}
use vikasa_demo.Verify.Checks.{Deps, Check, CheckResult, run_checks}
use vikasa_demo.Tour.Stage.{Stage, TourFault, of_result, query, query_scalar}

-- a number that is asked for, and what is done with it or with the error
abbrev pub Answer : Type 0 → Type 0
Answer S = S × Result VerifyError ℤ

module _ (T : Stage) where
  open T use {net}

  abbrev pub scalar : String → String → Live net.State VerifyError ℤ
  scalar ch q = do out ← ch_query net ch q; pure (parse_count out)

  abbrev pub lifted : Answer net.State → net.State × Result TourFault ℤ
  lifted (s, r) = (s, of_result r)

  pub query_scalar_lem :
      (ch q : String) (s : net.State) → query_scalar T ch q s ≡ lifted (scalar ch q s)
  unfolding query_scalar query
  query_scalar_lem ch q s = after (ch_query net ch q s)
    where
      after :
          (r : net.State × Result VerifyError String)
          → continue_with {S = net.State} {E = TourFault} {A = String} {B = ℤ}
              (r.0, of_result r.1)
              (λ out. pure (of_result (parse_count out)))
            ≡ lifted (
                continue_with {S = net.State} {E = VerifyError} {A = String} {B = ℤ} r
                  (λ out. pure (parse_count out)))
      after (s1, ok out) = refl
      after (s1, err e) = refl

  abbrev pub judged :
      (ℤ → CheckResult) → Answer net.State → net.State × Result VerifyError CheckResult
  judged f (s, ok n) = (s, ok (f n))
  judged f (s, err e) = (s, err e)

  pub check_lem :
      (f : ℤ → CheckResult) (ch q : String) (s : net.State)
      → (ch_query net ch q >>= λ out. (pure (parse_count out) >>= λ n. pure (ok (f n)))) s
        ≡ judged f (scalar ch q s)
  check_lem f ch q s = after (ch_query net ch q s)
    where
      count :
          (s1 : net.State) (n : Result VerifyError ℤ)
          → continue_with {S = net.State} {E = VerifyError} {A = ℤ} {B = CheckResult}
              (s1, n)
              (λ n. pure (ok (f n)))
            ≡ judged f (s1, n)
      count s1 (ok n) = refl
      count s1 (err e) = refl

      after :
          (r : net.State × Result VerifyError String)
          → continue_with {S = net.State} {E = VerifyError} {A = String} {B = CheckResult} r
              (λ out. (pure (parse_count out) >>= λ n. pure (ok (f n))))
            ≡ judged f (
                continue_with {S = net.State} {E = VerifyError} {A = String} {B = ℤ} r
                  (λ out. pure (parse_count out)))
      after (s1, ok out) = count s1 (parse_count out)
      after (s1, err e) = refl

  abbrev pub Report : Type 0
  Report = net.State × (List CheckResult × Option VerifyError)

  abbrev pub after_check :
      net.State × Result VerifyError CheckResult → (net.State → Report) → Report
  after_check (s, err e) rest = (s, ([], some e))
  after_check (s, ok x) rest = let (s2, (results, error)) = rest s in (s2, (x ∷ results, error))

  pub run_checks_lem :
      (c : Check net) (cs : List (Check net)) (deps : Deps) (s : net.State)
      → run_checks net (c ∷ cs) deps s ≡ after_check (c deps s) (run_checks net cs deps)
  unfolding run_checks
  run_checks_lem c cs deps s = elim (Result-cases (c deps s).1) [
    | inl (x, e) ↦ rw e refl
    | inr (x, e) ↦ rw e refl
  ]
