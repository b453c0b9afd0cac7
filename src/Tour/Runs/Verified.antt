-- ===== src/Tour/Runs/Verified.antt =====
-- The run that verifies (runVerify of internal/tour/tour.go), against a description by steps.
use mathlib.Core.Path.{subst}
use vikasa_demo.Base.{
  ℕ, ◌≡◌, refl, ap, ◌∙◌, ◌↔◌, ◌≢◌, Bool, true, false, String, List, [], ◌∷◌, ◌++◌, Option, none,
  some, Result, ok, err,
}
use vikasa_demo.Tour.Stage.{Stage, TourFault, Act}
use vikasa_demo.Tour.Phase.{Phase}
use vikasa_demo.Tour.Runs.{
  Verdict, passed, failed, skipped, stopped, RunError, context_ended, act, settle_time, settle_for,
  acted, settled, judge, verdict_of, verify_phase, verify_phases, run_verify,
}

module _ (T : Stage) (override : ℕ) where
  open T use {net}

  -- A phase goes well: its action does, its time passes, and then its assertion holds, where it has one.
  pub data GoesWell (p : Phase T) : net.State → net.State → Type 0 where
    well :
        {s s1 s2 s3 : net.State}
        → act T p.action s ≡ (s1, ok tt)
        → settle_for T (settle_time T override p.settle) s1 ≡ (s2, false)
        → act T p.assertion s2 ≡ (s3, ok tt)
        → GoesWell p s s3

  -- All of the phases go well, one after the other.
  pub data AllGoWell : List (Phase T) → net.State → net.State → Type 0 where
    done : {s : net.State} → AllGoWell [] s s
    next :
        {p : Phase T} {ps : List (Phase T)} {s s1 s2 : net.State}
        → GoesWell p s s1
        → AllGoWell ps s1 s2
        → AllGoWell (p ∷ ps) s s2

  abbrev IsGood : Verdict → Type 0
  IsGood passed = Unit
  IsGood skipped = Unit
  IsGood failed = ⊥
  IsGood stopped = ⊥

  of_verdict :
      (r : net.State × Result TourFault (Unit {0}))
      → IsGood (verdict_of T r).1
      → r ≡ ((verdict_of T r).0, ok tt)
  of_verdict (s, ok tt) good = refl
  of_verdict (s, err e) good = absurd good

  of_judged :
      (m : Option (Act T (Unit {0}))) (s : net.State)
      → IsGood (judge T m s).1
      → act T m s ≡ ((judge T m s).0, ok tt)
  of_judged none s good = refl
  of_judged (some assertion) s good = of_verdict (assertion s) good

  of_settled :
      (p : Phase T) (s s1 : net.State) (q : net.State × Bool)
      → act T p.action s ≡ (s1, ok tt)
      → settle_for T (settle_time T override p.settle) s1 ≡ q
      → IsGood (settled T p.assertion q).1
      → GoesWell p s (settled T p.assertion q).0
  of_settled p s s1 (s2, true) a b good = absurd good
  of_settled p s s1 (s2, false) a b good = well a b (of_judged p.assertion s2 good)

  of_acted :
      (p : Phase T) (s : net.State) (r : net.State × Result TourFault (Unit {0}))
      → act T p.action s ≡ r
      → IsGood (acted T p override r).1
      → GoesWell p s (acted T p override r).0
  of_acted p s (s1, err e) a good = absurd good
  of_acted p s (s1, ok tt) a good =
      of_settled p s s1 (settle_for T (settle_time T override p.settle) s1) a refl good

  of_phase :
      (p : Phase T) (s : net.State)
      → IsGood (verify_phase T p override s).1
      → GoesWell p s (verify_phase T p override s).0
  unfolding verify_phase
  of_phase p s good = of_acted p s (act T p.action s) refl good

  to_judged :
      (m : Option (Act T (Unit {0}))) (s s' : net.State)
      → act T m s ≡ (s', ok tt)
      → (v : Verdict) × (judge T m s ≡ (s', v)) × IsGood v
  to_judged none s s' h = (skipped, ap (λ y. (y.0, skipped)) h, tt)
  to_judged (some assertion) s s' h = (passed, ap (verdict_of T) h, tt)

  -- A phase that goes well neither fails nor ends the run.
  to_phase :
      (p : Phase T) (s s' : net.State)
      → GoesWell p s s'
      → (v : Verdict) × (verify_phase T p override s ≡ (s', v)) × IsGood v
  unfolding verify_phase
  to_phase p s s' (well {s2 = s2} a b c) =
      let (v, j, good) = to_judged p.assertion s2 s' c in
      (v, ap (acted T p override) a ∙ ap (settled T p.assertion) b ∙ j, good)

  -- the run after a phase
  abbrev continued :
      Phase T
      → List (Phase T)
      → List String
      → net.State × Verdict
      → net.State × Result RunError (Unit {0})
  continued p ps names (s, stopped) = (s, err context_ended)
  continued p ps names (s, failed) = verify_phases T ps override (names ++ p.name ∷ []) s
  continued p ps names (s, passed) = verify_phases T ps override names s
  continued p ps names (s, skipped) = verify_phases T ps override names s

  verify_phases_next :
      (p : Phase T) (ps : List (Phase T)) (names : List String) (s : net.State)
      → verify_phases T (p ∷ ps) override names s
        ≡ continued p ps names (verify_phase T p override s)
  unfolding verify_phases
  verify_phases_next p ps names s = refl

  -- A run that has a failed phase does not succeed.
  never_ok :
      (ps : List (Phase T)) (name : String) (names : List String) (s s' : net.State)
      → verify_phases T ps override (name ∷ names) s ≢ (s', ok tt)
  unfolding verify_phases
  never_ok [] name names s s' h = cc
  never_ok (p ∷ ps) name names s s' h =
      after (λ n ns s1. never_ok ps n ns s1 s') (verify_phase T p override s) h
    where
      after :
          ((n : String) (ns : List String) (s1 : net.State)
            → verify_phases T ps override (n ∷ ns) s1 ≢ (s', ok tt))
          → (q : net.State × Verdict) → continued p ps (name ∷ names) q ≡ (s', ok tt)
          → ⊥
      after none_ok (s1, stopped) h = cc
      after none_ok (s1, failed) h = none_ok name (names ++ p.name ∷ []) s1 h
      after none_ok (s1, passed) h = none_ok name names s1 h
      after none_ok (s1, skipped) h = none_ok name names s1 h

  go_well :
      (ps : List (Phase T)) (s s' : net.State)
      → verify_phases T ps override [] s ≡ (s', ok tt)
      → AllGoWell ps s s'
  unfolding verify_phases
  go_well [] s s' h = subst (AllGoWell [] s) (ap (λ y. y.0) h) done
  go_well (p ∷ ps) s s' h =
      after (λ s1. go_well ps s1 s') (verify_phase T p override s) (of_phase p s) h
    where
      after :
          ((s1 : net.State) → verify_phases T ps override [] s1 ≡ (s', ok tt) → AllGoWell ps s1 s')
          → (q : net.State × Verdict) → (IsGood q.1 → GoesWell p s q.0)
          → continued p ps [] q ≡ (s', ok tt)
          → AllGoWell (p ∷ ps) s s'
      after rest (s1, stopped) w h = absurd (cc)
      after rest (s1, failed) w h = absurd (never_ok ps p.name [] s1 s' h)
      after rest (s1, passed) w h = next (w tt) (rest s1 h)
      after rest (s1, skipped) w h = next (w tt) (rest s1 h)

  go_well_back :
      (ps : List (Phase T)) (s s' : net.State)
      → AllGoWell ps s s'
      → verify_phases T ps override [] s ≡ (s', ok tt)
  unfolding verify_phases
  go_well_back [] s s' done = refl
  go_well_back (p ∷ ps) s s' (next {s1 = s1} w ws) =
      let (v, e, good) = to_phase p s s1 w in
      ap (continued p ps []) e ∙ after (go_well_back ps s1 s' ws) v good
    where
      after :
          verify_phases T ps override [] s1 ≡ (s', ok tt)
          → (v : Verdict) → IsGood v
          → continued p ps [] (s1, v) ≡ (s', ok tt)
      after rest passed good = rest
      after rest skipped good = rest
      after rest failed good = absurd good
      after rest stopped good = absurd good

  -- A run that verifies succeeds exactly where all of the phases go well, each with its action, its
  -- wait and its assertion, one after the other.
  pub run_verify_refines :
      (ps : List (Phase T)) (s s' : net.State)
      → (run_verify T ps override s ≡ (s', ok tt)) ↔ AllGoWell ps s s'
  unfolding run_verify
  run_verify_refines ps s s' = (go_well ps s s', go_well_back ps s s')
