-- ===== src/Verify/Checks/Outcomes.antt =====
-- What the runs of the checks (internal/verify/checks.go) come to.
use vikasa_demo.Base.{
  ◌≡◌, refl, ap, ◌∙◌, inl, inr, List, [], ◌∷◌, ◌++◌, none, some, ok, err, Result-cases,
}
use vikasa_demo.Verify.Answers.{VerifyError}
use vikasa_demo.Verify.Network.{Network}
use vikasa_demo.Verify.Checks.{Check, Deps, CheckResult, run_checks}

module _ (N : Network) where
  -- A run that ends with an error: the checks before one of them, whose results are the run's, and that
  -- check, which has the error.
  abbrev pub StopsAt :
      List (Check N) → Deps → N.State → N.State → List CheckResult → VerifyError → Type 0
  StopsAt checks deps s s' results e =
      (done : List (Check N)) × (failing : Check N) × (rest : List (Check N)) × (s1 : N.State)
      × (checks ≡ done ++ failing ∷ rest)
      × (run_checks N done deps s ≡ (s1, (results, none)))
      × (failing deps s1 ≡ (s', err e))

  run_checks_next :
      (check : Check N) (checks : List (Check N)) (deps : Deps) (s : N.State) (x : CheckResult)
      → (check deps s).1 ≡ ok x
      → run_checks N (check ∷ checks) deps s ≡ (
          let (s2, (results, error)) = run_checks N checks deps (check deps s).0 in
          (s2, (x ∷ results, error)))
  unfolding run_checks
  run_checks_next check checks deps s x h = rw h refl

  stop_later :
      (check : Check N) (checks : List (Check N)) (deps : Deps) (s s' : N.State)
      (later results : List CheckResult) (e : VerifyError) (x : CheckResult)
      → (check deps s).1 ≡ ok x
      → x ∷ later ≡ results
      → StopsAt checks deps (check deps s).0 s' later e
      → StopsAt (check ∷ checks) deps s s' results e
  stop_later check checks deps s s' later results e x r w
        (done, failing, rest, s1, split, before, stop) =
      (
        check ∷ done,
        failing,
        rest,
        s1,
        ap (λ l. check ∷ l) split,
        run_checks_next check done deps s x r
            ∙ ap (λ y. (y.0, (x ∷ y.1.0, y.1.1))) before
            ∙ ap (λ l. (s1, (l, none))) w,
        stop,
      )

  -- A run of checks that ends with an error has stopped at a check with that error, and has the results
  -- of the checks before it.
  pub run_checks_error :
      (checks : List (Check N)) (deps : Deps) (s s' : N.State) (results : List CheckResult)
      (e : VerifyError)
      → run_checks N checks deps s ≡ (s', (results, some e))
      → StopsAt checks deps s s' results e
  unfolding run_checks
  run_checks_error [] deps s s' results e h = absurd (cc)
  run_checks_error (check ∷ checks) deps s s' results e h = elim (Result-cases (check deps s).1) [
    | inr (x, r) ↦ let g = rw r at h in ([], check, checks, s, refl, cc, cc)
    | inl (x, r) ↦
        let g = rw (r, run_checks) at h in
        let later = (run_checks N checks deps (check deps s).0).1.0 in
        stop_later check checks deps s s' later results e x r (ap (λ y. y.1.0) g)
          (run_checks_error checks deps (check deps s).0 s' later e (cc))
  ]
