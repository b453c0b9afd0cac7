-- ===== src/Tour/Phase.antt =====
-- internal/tour: a phase, and the assertion of a healthy baseline that several phases share.
pub mod Answers
pub mod Baseline
use vikasa_demo.Base.{
  ℕ, false, String, List, [], ◌∷◌, Option, none, some, if◌then◌else◌, texts, ok, err, Result,
}
use vikasa_demo.Verify.Answers.{VerifyError}
use vikasa_demo.Verify.Checks.{CheckResult, run_baseline}
use vikasa_demo.Tour.Stage.{Stage, TourFault, of_verify, unexpected, Act}

module _ (T : Stage) where
  -- What the presenter reads and shows is left out; `settle` is in seconds.
  pub record Phase : Type 0 where
    pub name : String
    pub action : Option (Act T (Unit {0}))
    pub settle : ℕ
    pub assertion : Option (Act T (Unit {0}))

unfoldable pub first_failure : List CheckResult → Option CheckResult
first_failure [] = none
first_failure (r ∷ rs) = let rest = first_failure rs in if r.passes then rest else some r

abbrev pub of_failure : Option CheckResult → Result TourFault (Unit {0})
of_failure none = ok tt
of_failure (some r) = err (unexpected (texts (r.name ∷ ": " ∷ r.detail ∷ [])))

unfoldable pub of_baseline : List CheckResult × Option VerifyError → Result TourFault (Unit {0})
unfolding first_failure
of_baseline (results, some e) = err (of_verify e)
of_baseline (results, none) = of_failure (first_failure results)

module _ (T : Stage) where
  unfoldable pub assert_baseline : String → String → Act T (Unit {0})
  unfolding of_baseline run_baseline
  assert_baseline ch db s =
      let (s', outcome) =
        run_baseline T.net (record { ch = ch; db = db; expect_stale = false }) s in
      (s', of_baseline outcome)
