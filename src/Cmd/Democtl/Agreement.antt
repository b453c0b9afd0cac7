-- ===== src/Cmd/Democtl/Agreement.antt =====
-- `democtl verify baseline` (cmd/democtl/main.go) against the assertion of a healthy baseline that the
-- tour makes itself (internal/tour/phases.go).
use vikasa_demo.Base.{
  true, false, String, List, [], ◌∷◌, Option, none, some, str_eq, ok, ◌≡◌, ◌↔◌, ◌⊎◌, refl, ap,
  arith, Bool-cases, inl, inr,
}
use vikasa_demo.Verify.Answers.{VerifyError}
use vikasa_demo.Verify.Queries.{database}
use vikasa_demo.Verify.Checks.{CheckResult, Deps, run_baseline}
use vikasa_demo.Tour.Stage.{Stage}
use vikasa_demo.Tour.Phase.{first_failure, of_baseline, assert_baseline}
use vikasa_demo.Cmd.Democtl.{all_pass, baseline_exit, run_verify_baseline}

-- All results pass, and none is a failure; or not all do, and there is a first failure.
all_pass-first_failure :
    (rs : List CheckResult)
    → ((all_pass rs ≡ true) × (first_failure rs ≡ none))
      ⊎ ((all_pass rs ≡ false) × (r : CheckResult) × (first_failure rs ≡ some r))
unfolding all_pass first_failure
all_pass-first_failure [] = inl (refl, refl)
all_pass-first_failure (r ∷ rs) = elim (Bool-cases r.passes) [
  | inl e ↦ rw e (all_pass-first_failure rs)
  | inr e ↦ inr (ground (arith, e), r, ground (arith, e))
]

exit_agrees :
    (o : List CheckResult × Option VerifyError) → (baseline_exit o ≡ 0) ↔ (of_baseline o ≡ ok tt)
unfolding baseline_exit of_baseline
exit_agrees (rs, some e) = (λ h. absurd (cc), λ h. absurd (cc))
exit_agrees (rs, none) = elim (all_pass-first_failure rs) [
  | inl (a, f) ↦ rw (a, f) (λ h. refl, λ h. refl)
  | inr (a, r, f) ↦ rw (a, f) (λ h. absurd (cc), λ h. absurd (cc))
]

-- For a department that is given, the command that verifies a baseline exits with 0, in a state,
-- exactly where the tour's assertion of a healthy baseline of that department succeeds, in that state.
pub run_verify_baseline-assert_baseline :
    (T : Stage) (dot ch : String) (s s' : T.net.State)
    → str_eq dot "" ≡ false
    → (run_verify_baseline T.net dot ch false s ≡ (s', 0))
      ↔ (assert_baseline T ch (database dot) s ≡ (s', ok tt))
unfolding run_verify_baseline assert_baseline
run_verify_baseline-assert_baseline T dot ch s s' h =
    let deps : Deps = record { ch = ch; db = database dot; expect_stale = false } in
    let o = run_baseline T.net deps s in
    let (there, back) = exit_agrees o.1 in
    rw h (
      λ e. let p = ap (λ y. y.0) e in let q = there (ap (λ y. y.1) e) in cc,
      λ e. let p = ap (λ y. y.0) e in let q = back (ap (λ y. y.1) e) in cc,
    )
