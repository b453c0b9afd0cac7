-- ===== src/Tour/Runs.antt =====
-- internal/tour/tour.go: the two ways to run the phases.
pub mod Verified
pub mod Paced
use vikasa_demo.Base.{
  ℕ, Bool, true, false, String, List, [], ◌∷◌, ◌++◌, Option, none, some, if◌then◌else◌, ltb, Result,
  ok, err,
}
use vikasa_demo.Tour.Stage.{Stage, TourFault, Act}
use vikasa_demo.Tour.Phase.{Phase}

-- what a phase comes to, and the end of the context while it settles
pub data Verdict : Type 0 where
  passed failed skipped stopped : Verdict

-- the end of the context, a line that cannot be read, and the names of the phases that failed
pub data RunError : Type 0 where
  context_ended stdin_broken : RunError
  phases_failed : List String → RunError

-- a line of the standard input, or an error in place of one; after the last there is the end of the file
pub data Line : Type 0 where
  entered broken : Line

-- what is at the prompt: the presenter's Enter, the end of the file, an error
pub data Gate : Type 0 where
  go stop refuse : Gate

abbrev pub wait_for_enter : List Line → Gate × List Line
wait_for_enter [] = (stop, [])
wait_for_enter (entered ∷ lines) = (go, lines)
wait_for_enter (broken ∷ lines) = (refuse, lines)

module _ (T : Stage) where
  open T use {net, sleep, has_ended}

  abbrev pub act : Option (Act T (Unit {0})) → Act T (Unit {0})
  act none s = (s, ok tt)
  act (some action) s = action s

  -- the phase's own time unless there is an override
  abbrev pub settle_time : ℕ → ℕ → ℕ
  settle_time override settle = if ltb 0 override then override else settle

  abbrev pub settle_for : ℕ → net.State → net.State × Bool
  settle_for time s = if ltb 0 time then sleep time s else (s, false)

  abbrev pub verdict_of : net.State × Result TourFault (Unit {0}) → net.State × Verdict
  verdict_of (s, ok _) = (s, passed)
  verdict_of (s, err e) = (s, failed)

  abbrev pub judge : Option (Act T (Unit {0})) → net.State → net.State × Verdict
  judge none s = (s, skipped)
  judge (some assertion) s = verdict_of (assertion s)

  abbrev pub settled : Option (Act T (Unit {0})) → net.State × Bool → net.State × Verdict
  settled assertion (s, true) = (s, stopped)
  settled assertion (s, false) = judge assertion s

  abbrev pub acted : Phase T → ℕ → net.State × Result TourFault (Unit {0}) → net.State × Verdict
  acted p override (s, err e) = (s, failed)
  acted p override (s, ok _) = settled p.assertion (settle_for (settle_time override p.settle) s)

  -- one turn of the loop of runVerify
  unfoldable pub verify_phase : Phase T → ℕ → net.State → net.State × Verdict
  verify_phase p override s = acted p override (act p.action s)

  abbrev pub outcome_of : List String → Result RunError (Unit {0})
  outcome_of [] = ok tt
  outcome_of (name ∷ names) = err (phases_failed (name ∷ names))

  -- the loop, with the names that have failed so far
  unfoldable pub verify_phases :
      List (Phase T) → ℕ → List String → net.State → net.State × Result RunError (Unit {0})
  unfolding verify_phase
  verify_phases [] override names s = (s, outcome_of names)
  verify_phases (p ∷ ps) override names s =
      let (s', verdict) = verify_phase p override s in
      elim verdict [
        | stopped ↦ (s', err context_ended)
        | failed ↦ verify_phases ps override (names ++ p.name ∷ []) s'
        | passed ↦ verify_phases ps override names s'
        | skipped ↦ verify_phases ps override names s'
      ]

  unfoldable pub run_verify :
      List (Phase T) → ℕ → net.State → net.State × Result RunError (Unit {0})
  unfolding verify_phases
  run_verify ps override s = verify_phases ps override [] s

  abbrev pub gated :
      Gate
      → net.State × Result RunError (Unit {0})
      → net.State
      → net.State × Result RunError (Unit {0})
  gated go rest s = rest
  gated stop rest s = (s, ok tt)
  gated refuse rest s = (s, err stdin_broken)

  -- An action that fails does not end a paced run.
  unfoldable pub run_paced :
      List (Phase T) → List Line → net.State → net.State × Result RunError (Unit {0})
  run_paced [] lines s = (s, ok tt)
  run_paced (p ∷ ps) lines s =
      let (first, lines1) = wait_for_enter lines in
      let (second, lines2) = wait_for_enter lines1 in
      let (s', _) = act p.action s in
      let rest = run_paced ps lines2 s' in
      if has_ended s then (s, err context_ended) else gated first (gated second rest s') s

  -- Run, with the mode of its options
  unfoldable pub run :
      Bool → List (Phase T) → ℕ → List Line → net.State → net.State × Result RunError (Unit {0})
  unfolding run_verify run_paced
  run paced ps override lines s = if paced then run_paced ps lines s else run_verify ps override s
