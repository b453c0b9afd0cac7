-- ===== src/Tour/Phase/Baseline.antt =====
-- What the assertion of a healthy baseline (assertBaseline of internal/tour/phases.go, over the checks
-- of internal/verify/checks.go) asks of the three answers that it gets.
use mathlib.Core.Path.{fun_ext}
use vikasa_demo.Base.{
  ◌≡◌, ◌≢◌, refl, ap, ◌∙◌, ◌↔◌, inl, inr, Bool, true, false, ◌&&◌, String, [], ◌∷◌, none, ◌⊎◌,
  if◌then◌else◌, Bool-cases, Result, ok, err, ℤ,
}
use vikasa_demo.Verify.Network.{continue_with, ◌>>=◌, pure}
use vikasa_demo.Verify.Queries.{recent_events_query, heartbeat_freshness_query, dead_letter_query}
use vikasa_demo.Verify.Checks.{
  Deps, is_positive, is_zero, at_most, recent_of, freshness_of, dead_letters_of,
  check_recent_events, check_heartbeat_freshness, check_dead_letters, run_checks, run_baseline,
}
use vikasa_demo.Tour.Stage.{Stage, TourFault, unexpected, Act, query_scalar}
use vikasa_demo.Tour.Phase.{first_failure, of_failure, of_baseline, assert_baseline}
use vikasa_demo.Tour.Phase.Answers.{
  Answer, scalar, lifted, judged, Report, after_check, query_scalar_lem, check_lem, run_checks_lem,
}

module _ (T : Stage) where
  open T use {net}

  -- The number of recent rows is positive, the freshest heartbeat is at most 45 seconds old, and there
  -- is no dead letter.
  abbrev pub all_healthy : ℤ → ℤ → ℤ → Bool
  all_healthy recent age dead = is_positive recent && at_most age 45 && is_zero dead

  -- the three questions, one after the other
  unfoldable pub ask_healthy : String → String → Act T (Unit {0})
  unfolding query_scalar
  ask_healthy ch db = do
    recent ← query_scalar T ch (recent_events_query db)
    age ← query_scalar T ch (heartbeat_freshness_query db)
    dead ← query_scalar T ch (dead_letter_query db)
    pure (if all_healthy recent age dead then ok tt else err (unexpected ""))

  abbrev finish : Report T → net.State × Result TourFault (Unit {0})
  finish (s, outcome) = (s, of_baseline outcome)

  abbrev asserted :
      Answer net.State
      → (net.State → Answer net.State)
      → (net.State → Answer net.State)
      → net.State × Result TourFault (Unit {0})
  asserted r k2 k3 = finish (
      after_check T (judged T (recent_of net) r) (λ s1.
        after_check T (judged T (freshness_of net false) (k2 s1))
          (λ s2. after_check T (judged T (dead_letters_of net) (k3 s2)) (λ s3. (s3, ([], none))))))

  abbrev asked :
      Answer net.State
      → (net.State → Answer net.State)
      → (net.State → Answer net.State)
      → net.State × Result TourFault (Unit {0})
  asked r k2 k3 = continue_with (lifted T r) (λ n s1. continue_with (lifted T (k2 s1)) (λ a s2.
      continue_with (lifted T (k3 s2))
        (λ d. pure (if all_healthy n a d then ok tt else err (unexpected "")))))

  abbrev verdict : ℤ → ℤ → ℤ → Result TourFault (Unit {0})
  verdict n a d =
      of_failure
        (first_failure (recent_of net n ∷ freshness_of net false a ∷ dead_letters_of net d ∷ []))

  verdict_cases :
      (n a d : ℤ)
      → ((all_healthy n a d ≡ true) × (verdict n a d ≡ ok tt))
        ⊎ ((all_healthy n a d ≡ false) × (verdict n a d ≢ ok tt))
  unfolding first_failure
  verdict_cases n a d = elim (Bool-cases (is_positive n)) [
    | inr e ↦ inr (rw e refl, λ v. let w = rw e at v in cc)
    | inl e ↦ elim (Bool-cases (at_most a 45)) [
      | inr f ↦ inr (rw (e, f) refl, λ v. let w = rw (e, f) at v in cc)
      | inl f ↦ elim (Bool-cases (is_zero d)) [
        | inr g ↦ inr (rw (e, f, g) refl, λ v. let w = rw (e, f, g) at v in cc)
        | inl g ↦ inl (rw (e, f, g) refl, rw (e, f, g) refl)
      ]
    ]
  ]

  abbrev EndsWell : net.State × Result TourFault (Unit {0}) → net.State → Type 0
  EndsWell r s' = r ≡ (s', ok tt)

  same3 :
      (n a d : ℤ) (s s' : net.State)
      → EndsWell (s, verdict n a d) s'
        ↔ EndsWell (s, if all_healthy n a d then ok tt else err (unexpected "")) s'
  same3 n a d s s' = elim (verdict_cases n a d) [
    | inl (h, v) ↦ rw (h, v) (λ x. x, λ x. x)
    | inr (h, v) ↦ rw h (λ x. absurd (v (ap (λ y. y.1) x)), λ x. absurd (cc))
  ]

  same2 :
      (n a : ℤ) (r : Answer net.State) (s' : net.State)
      → EndsWell
          (finish (
            let (s3, (results, error)) =
              after_check T (judged T (dead_letters_of net) r) (λ s3. (s3, ([], none))) in
            (s3, (recent_of net n ∷ freshness_of net false a ∷ results, error))))
          s'
        ↔ EndsWell
            (continue_with
              (lifted T r)
              (λ d. pure (if all_healthy n a d then ok tt else err (unexpected ""))))
            s'
  unfolding of_baseline first_failure
  same2 n a (s, ok d) s' = same3 n a d s s'
  same2 n a (s, err e) s' = (λ x. x, λ x. x)

  same1 :
      (n : ℤ) (r : Answer net.State) (k3 : net.State → Answer net.State) (s' : net.State)
      → EndsWell
          (finish (
            let (s3, (results, error)) = after_check T (judged T (freshness_of net false) r) (λ s2.
              after_check T (judged T (dead_letters_of net) (k3 s2)) (λ s3. (s3, ([], none)))) in
            (s3, (recent_of net n ∷ results, error))))
          s'
        ↔ EndsWell
            (continue_with (lifted T r) (λ a s2.
              continue_with
                (lifted T (k3 s2))
                (λ d. pure (if all_healthy n a d then ok tt else err (unexpected "")))))
            s'
  unfolding of_baseline
  same1 n (s, ok a) k3 s' = same2 n a (k3 s) s'
  same1 n (s, err e) k3 s' = (λ x. x, λ x. x)

  same :
      (r : Answer net.State) (k2 k3 : net.State → Answer net.State) (s' : net.State)
      → EndsWell (asserted r k2 k3) s' ↔ EndsWell (asked r k2 k3) s'
  unfolding of_baseline
  same (s, ok n) k2 k3 s' = same1 n (k2 s) k3 s'
  same (s, err e) k2 k3 s' = (λ x. x, λ x. x)

  dead_letters_report :
      (deps : Deps) (s : net.State)
      → run_checks net (check_dead_letters net ∷ []) deps s
        ≡ after_check T
            (judged T (dead_letters_of net) (scalar T deps.ch (dead_letter_query deps.db) s))
            (λ s3. (s3, ([], none)))
  unfolding check_dead_letters run_checks
  dead_letters_report deps s =
      run_checks_lem T (check_dead_letters net) [] deps s
      ∙ ap (λ r. after_check T r (λ s3. (s3, ([], none))))
          (check_lem T (dead_letters_of net) deps.ch (dead_letter_query deps.db) s)

  freshness_report :
      (deps : Deps) (s : net.State)
      → run_checks net (check_heartbeat_freshness net ∷ check_dead_letters net ∷ []) deps s
        ≡ after_check T
            (judged T
              (freshness_of net deps.expect_stale)
              (scalar T deps.ch (heartbeat_freshness_query deps.db) s))
            (λ s2.
              after_check T
                (judged T (dead_letters_of net) (scalar T deps.ch (dead_letter_query deps.db) s2))
                (λ s3. (s3, ([], none))))
  unfolding check_heartbeat_freshness
  freshness_report deps s =
      let fresh = freshness_of net deps.expect_stale in
      run_checks_lem T (check_heartbeat_freshness net) (check_dead_letters net ∷ []) deps s
      ∙ ap (λ r. after_check T r (run_checks net (check_dead_letters net ∷ []) deps))
          (check_lem T fresh deps.ch (heartbeat_freshness_query deps.db) s)
      ∙ ap
          (λ rest.
            after_check T (judged T fresh (scalar T deps.ch (heartbeat_freshness_query deps.db) s))
              rest)
          (fun_ext (dead_letters_report deps))

  assert_baseline-asserted :
      (ch db : String) (s : net.State)
      → assert_baseline T ch db s
        ≡ asserted
            (scalar T ch (recent_events_query db) s)
            (scalar T ch (heartbeat_freshness_query db))
            (scalar T ch (dead_letter_query db))
  unfolding assert_baseline run_baseline check_recent_events check_heartbeat_freshness
      check_dead_letters
  assert_baseline-asserted ch db s =
      let deps : Deps = record { ch = ch; db = db; expect_stale = false } in
      let others = check_heartbeat_freshness net ∷ check_dead_letters net ∷ [] in
      ap finish (
        run_checks_lem T (check_recent_events net) others deps s
        ∙ ap (λ r. after_check T r (run_checks net others deps))
            (check_lem T (recent_of net) ch (recent_events_query db) s)
        ∙ ap
            (λ rest.
              after_check T (judged T (recent_of net) (scalar T ch (recent_events_query db) s))
                rest)
            (fun_ext (freshness_report deps)))

  ask_healthy-asked :
      (ch db : String) (s : net.State)
      → ask_healthy ch db s
        ≡ asked
            (scalar T ch (recent_events_query db) s)
            (scalar T ch (heartbeat_freshness_query db))
            (scalar T ch (dead_letter_query db))
  unfolding ask_healthy
  ask_healthy-asked ch db s =
      ap
        (λ (ask : String → net.State → net.State × Result TourFault ℤ).
          continue_with (ask (recent_events_query db) s) (λ n s1.
            continue_with (ask (heartbeat_freshness_query db) s1) (λ a s2.
              continue_with (ask (dead_letter_query db) s2)
                (λ d. pure (if all_healthy n a d then ok tt else err (unexpected ""))))))
        (fun_ext (λ q. fun_ext (query_scalar_lem T ch q)))

  -- The assertion of a healthy baseline succeeds exactly where the three numbers can be read and are
  -- healthy: the recent rows are more than none, the freshest heartbeat is at most 45 seconds old, and
  -- there is no dead letter. The questions are put in this order, and none after an error.
  pub assert_baseline-ask_healthy :
      (ch db : String) (s s' : net.State)
      → (assert_baseline T ch db s ≡ (s', ok tt)) ↔ (ask_healthy ch db s ≡ (s', ok tt))
  assert_baseline-ask_healthy ch db s s' =
      rw (assert_baseline-asserted ch db s, ask_healthy-asked ch db s)
        (same (scalar T ch (recent_events_query db) s) (scalar T ch (heartbeat_freshness_query db))
          (scalar T ch (dead_letter_query db)) s')
