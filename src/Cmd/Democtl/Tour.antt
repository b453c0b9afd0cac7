-- ===== src/Cmd/Democtl/Tour.antt =====
-- When `democtl tour` (cmd/democtl/main.go) exits with 0.
use mathlib.Core.Path.{subst}
use vikasa_demo.Base.{
  Bool, true, false, String, List, if◌then◌else◌, Result, ok, err, ◌≡◌, ◌↔◌, refl, ap, sym,
}
use vikasa_demo.Fleet.Tour.{FleetInfo, TourError}
use vikasa_demo.Tour.Stage.{Stage}
use vikasa_demo.Tour.Phase.{Phase}
use vikasa_demo.Tour.Table.{build_phases}
use vikasa_demo.Tour.Runs.{Line, RunError, run, run_verify}
use vikasa_demo.Tour.Runs.Verified.{AllGoWell, run_verify_refines}
use vikasa_demo.Tour.Filter.{Want}
use vikasa_demo.Tour.Ai.{AiError, run_ai_phases}
use vikasa_demo.Tour.Only.{split_only_names}
use vikasa_demo.Cmd.Democtl.{
  TourFlags, config_of, ai_config_of, chosen, with_phases, with_names, after_run, ai_exit, run_tour,
}

module _ (T : Stage) where
  open T use {net}

  -- what has to go well after the standard phases
  abbrev pub Concludes : TourFlags → Want → List Line → net.State → net.State → Type 0
  Concludes f ai_only lines s s' =
      if f.ai then run_ai_phases T (ai_config_of f) ai_only lines s ≡ (s', ok tt) else s ≡ s'

  exit_zero :
      (q : net.State × Result AiError (Unit {0})) (s' : net.State)
      → (ai_exit T q ≡ (s', 0)) ↔ (q ≡ (s', ok tt))
  exit_zero (s, ok tt) s' = (λ e. let p = ap (λ y. y.0) e in cc, λ e. let p = ap (λ y. y.0) e in cc)
  exit_zero (s, err x) s' =
      (λ e. let q = ap (λ y. y.1) e in absurd (cc), λ e. let q = ap (λ y. y.1) e in absurd (cc))

  concluded :
      (ai : Bool) (f : TourFlags) (ai_only : Want) (lines : List Line) (s s' : net.State)
      → f.ai ≡ ai
      → (after_run T f ai_only lines (s, ok tt) ≡ (s', 0)) ↔ Concludes f ai_only lines s s'
  concluded true f ai_only lines s s' h =
      rw h (exit_zero (run_ai_phases T (ai_config_of f) ai_only lines s) s')
  concluded false f ai_only lines s s' h =
      rw h (λ e. ap (λ y. y.0) e, λ e. let p : s ≡ s' = e in cc)

  after_zero :
      (f : TourFlags) (ai_only : Want) (lines : List Line)
      (q : net.State × Result RunError (Unit {0})) (s' : net.State)
      → (after_run T f ai_only lines q ≡ (s', 0))
        ↔ ((s1 : net.State) × (q ≡ (s1, ok tt)) × Concludes f ai_only lines s1 s')
  after_zero f ai_only lines (s, err x) s' = (
    λ e. let q = ap (λ y. y.1) e in absurd (cc),
    λ (s1, e, c). let q = ap (λ y. y.1) e in absurd (cc),
  )
  after_zero f ai_only lines (s, ok tt) s' =
      let (there, back) = concluded f.ai f ai_only lines s s' refl in
      (
        λ e. (s, refl, there e),
        λ (s1, e, c). back (subst (λ y. Concludes f ai_only lines y s') (sym (ap (λ y. y.0) e)) c),
      )

  -- With flags that can be read, a fleet of which the phases can be built, and names that select some
  -- of them, an unattended tour exits with 0 exactly where all the selected phases go well, one after
  -- the other, and then, with `--ai`, the assistant's phases end without an error.
  pub run_tour_zero :
      (f : TourFlags) (info : Result TourError FleetInfo) (lines ai_lines : List Line)
      (all phases : List (Phase T)) (std : List String) (ai_only : Want) (s s' : net.State)
      → f.paced ≡ false
      → build_phases T (config_of f) info ≡ ok all
      → split_only_names f.only f.ai ≡ ok (std, ai_only)
      → chosen T f.only all std ≡ ok phases
      → (run_tour T f info lines ai_lines s ≡ (s', 0))
        ↔ ((s1 : net.State) × AllGoWell T f.settle phases s s1 × Concludes f ai_only ai_lines s1 s')
  unfolding run_tour with_phases with_names run
  run_tour_zero f info lines ai_lines all phases std ai_only s s' p b n c =
      let (there, back) = after_zero f ai_only ai_lines (run_verify T phases f.settle s) s' in
      rw (p, b, n, c)
        (
          λ e.
              let (s1, e1, k) = there e in
              (s1, (run_verify_refines T f.settle phases s s1).0 e1, k),
          λ (s1, w, k). back (s1, (run_verify_refines T f.settle phases s s1).1 w, k),
        )
