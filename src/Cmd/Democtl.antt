-- ===== src/Cmd/Democtl.antt =====
-- cmd/democtl/main.go: the commands with their exit codes, from the flags that have been read. What is
-- printed is left out, and so is the time limit: the end of the context is the stage's.
pub mod Agreement
pub mod Tour
pub mod Unasked
use vikasa_demo.Base.{
  ℕ, Bool, true, false, ◌&&◌, String, List, [], ◌∷◌, Option, none, some, str_eq, if◌then◌else◌,
  is_nonempty, Result, ok, err,
}
use vikasa_demo.Verify.Answers.{VerifyError}
use vikasa_demo.Verify.Network.{Network}
use vikasa_demo.Verify.Queries.{database}
use vikasa_demo.Verify.Checks.{Deps, CheckResult, DedupResult, is_zero, run_baseline, run_dedup}
use vikasa_demo.Verify.Docker.{DockerError}
use vikasa_demo.Fleet.Tour.{FleetInfo, TourError}
use vikasa_demo.Tour.Stage.{Stage}
use vikasa_demo.Tour.Phase.{Phase}
use vikasa_demo.Tour.Table.{Config, BuildError, build_phases}
use vikasa_demo.Tour.Runs.{Line, RunError}
use vikasa_demo.Tour.Runs as Runs
use vikasa_demo.Tour.Filter.{Want, filter_phases}
use vikasa_demo.Tour.Ai.{AiConfig, AiError, run_ai_phases}
use vikasa_demo.Tour.Only.{split_only_names}
use vikasa_demo.Ai.Grafana.{Grafana, new_client, reset}
use vikasa_demo.Ai.Setup.{setup}
use vikasa_demo.Ai.Dashboard.{Bench, verify_ai_dashboard}
use vikasa_demo.Cmd.Cut.{Docker, cut_or_restore}

unfoldable pub all_pass : List CheckResult → Bool
all_pass [] = true
all_pass (r ∷ rs) = r.passes && all_pass rs

unfoldable pub baseline_exit : List CheckResult × Option VerifyError → ℕ
unfolding all_pass
baseline_exit (results, some e) = 1
baseline_exit (results, none) = if all_pass results then 0 else 1

abbrev pub dedup_exit : Result VerifyError DedupResult → ℕ
dedup_exit (err e) = 1
dedup_exit (ok r) = if is_zero r.diff then 0 else 1

module _ (N : Network) where
  -- `-dot` is required
  unfoldable pub run_verify_baseline : String → String → Bool → N.State → N.State × ℕ
  unfolding run_baseline baseline_exit
  run_verify_baseline dot ch expect_stale s =
      let deps : Deps = record { ch = ch; db = database dot; expect_stale = expect_stale } in
      let (s', outcome) = run_baseline N deps s in
      if str_eq dot "" then (s, 2) else (s', baseline_exit outcome)

  unfoldable pub run_verify_dedup : String → String → N.State → N.State × ℕ
  unfolding run_dedup
  run_verify_dedup dot ch s =
      let deps : Deps = record { ch = ch; db = database dot; expect_stale = false } in
      let (s', outcome) = run_dedup N deps s in
      if str_eq dot "" then (s, 2) else (s', dedup_exit outcome)

abbrev pub exit_of {ℓ} : {E : Type ℓ} {A : Type 0} → Result E A → ℕ
exit_of (ok _) = 0
exit_of (err _) = 1

module _ (D : Docker) where
  unfoldable pub run_cut : String → D.State → D.State × ℕ
  unfolding cut_or_restore
  run_cut cabinet s =
      let (s', r) = cut_or_restore D cabinet "disconnect" s in
      if str_eq cabinet "" then (s, 2) else (s', exit_of r)

  unfoldable pub run_restore : String → D.State → D.State × ℕ
  unfolding cut_or_restore
  run_restore cabinet s =
      let (s', r) = cut_or_restore D cabinet "connect" s in
      if str_eq cabinet "" then (s, 2) else (s', exit_of r)

abbrev pub exit_unless : {E : Type 0} → Option E → ℕ
exit_unless none = 0
exit_unless (some _) = 1

unfoldable pub run_verify_ai_dashboard :
    (B : Bench) → String → String → String → B.grafana.State → B.grafana.State × ℕ
unfolding verify_ai_dashboard new_client
run_verify_ai_dashboard B grafana user ch s =
    let (s', outcome) = verify_ai_dashboard B (new_client grafana user) ch s in
    (s', exit_unless outcome.1)

module _ (G : Grafana) where
  unfoldable pub run_ai_setup : String → String → String → String → G.State → G.State × ℕ
  unfolding setup new_client
  run_ai_setup grafana user ch_host ch_port s =
      let (s', r) = setup G (new_client grafana user) grafana ch_host ch_port s in (s', exit_of r)

  unfoldable pub run_ai_reset : String → String → G.State → G.State × ℕ
  unfolding reset new_client
  run_ai_reset grafana user s =
      let (s', outcome) = reset G (new_client grafana user) s in (s', exit_unless outcome.1)

-- the flags of `democtl tour`; the time to settle is in seconds
pub record TourFlags : Type 0 where
  pub paced : Bool
  pub verify : Bool
  pub ai : Bool
  pub dot : String
  pub ch : String
  pub grafana : String
  pub compose_file : String
  pub fleet : String
  pub settle : ℕ
  pub only : String

-- `tour.Config` and `tour.AIConfig` of the flags
abbrev pub config_of : TourFlags → Config
config_of f = record {
  ch = f.ch;
  grafana = f.grafana;
  compose_file = f.compose_file;
  fleet_path = f.fleet;
  dot = f.dot;
}

abbrev pub ai_config_of : TourFlags → AiConfig
ai_config_of f = record { grafana = f.grafana; ch = f.ch; dot = f.dot; prompts_path = "" }

module _ (T : Stage) where
  open T use {net}

  -- The `switch` over `--only`: all phases, those of the standard names, or none.
  unfoldable pub chosen :
      String → List (Phase T) → List String → Result (List String) (List (Phase T))
  unfolding filter_phases
  chosen only phases std =
      if str_eq only ""
      then ok phases
      else if is_nonempty std
      then filter_phases T phases std
      else ok []

  abbrev pub ai_exit : net.State × Result AiError (Unit {0}) → net.State × ℕ
  ai_exit (s, r) = (s, exit_of r)

  abbrev pub after_run :
      TourFlags → Want → List Line → net.State × Result RunError (Unit {0}) → net.State × ℕ
  after_run f ai_only lines (s, err e) = (s, 1)
  after_run f ai_only lines (s, ok _) =
      let rest = ai_exit (run_ai_phases T (ai_config_of f) ai_only lines s) in
      if f.ai then rest else (s, 0)

  abbrev pub with_chosen :
      TourFlags
      → Want
      → List Line
      → List Line
      → net.State
      → Result (List String) (List (Phase T))
      → net.State × ℕ
  with_chosen f ai_only lines ai_lines s (err names) = (s, 2)
  with_chosen f ai_only lines ai_lines s (ok phases) =
      after_run f ai_only ai_lines (Runs.run T f.paced phases f.settle lines s)

  unfoldable pub with_names :
      TourFlags
      → List (Phase T)
      → List Line
      → List Line
      → net.State
      → Result String (List String × Want)
      → net.State × ℕ
  unfolding chosen
  with_names f phases lines ai_lines s (err name) = (s, 2)
  with_names f phases lines ai_lines s (ok (std, ai_only)) =
      with_chosen f ai_only lines ai_lines s (chosen f.only phases std)

  unfoldable pub with_phases :
      TourFlags
      → List Line
      → List Line
      → net.State
      → Result BuildError (List (Phase T))
      → net.State × ℕ
  unfolding split_only_names with_names
  with_phases f lines ai_lines s (err e) = (s, 1)
  with_phases f lines ai_lines s (ok phases) =
      with_names f phases lines ai_lines s (split_only_names f.only f.ai)

  -- `info` is what LoadFleetInfo returns; the assistant's phases read the lines with a reader of
  -- their own.
  unfoldable pub run_tour :
      TourFlags → Result TourError FleetInfo → List Line → List Line → net.State → net.State × ℕ
  unfolding build_phases with_phases
  run_tour f info lines ai_lines s =
      if f.paced && f.verify
      then (s, 2)
      else with_phases f lines ai_lines s (build_phases T (config_of f) info)
