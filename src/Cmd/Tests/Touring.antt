-- ===== src/Cmd/Tests/Touring.antt =====
-- `democtl tour` at concrete flags, on a stage where all goes well.
use vikasa_demo.Base.{ℕ, true, false, List, [], ◌∷◌, ok, ◌≡◌, ◌↔◌, refl, get, string_eq, err}
use vikasa_demo.Verify.Queries.{database}
use vikasa_demo.Fleet.Tour.{FleetInfo}
use vikasa_demo.Tour.Tests.{stage}
use vikasa_demo.Tour.Phase.{Phase, assert_baseline}
use vikasa_demo.Tour.Table.{with_defaults, build_phases, with_fault_port, phase_table}
use vikasa_demo.Tour.Runs.{entered}
use vikasa_demo.Tour.Runs.Verified.{AllGoWell}
use vikasa_demo.Tour.Ai.{AiConfig, after_scheme, before_slash, last_colon, split_host_port}
use vikasa_demo.Tour.Only.{split_only_names}
use vikasa_demo.Tour.Only.Sorted.{names_of_only, SplitsAs, split_only_names-SplitsAs}
use vikasa_demo.Cmd.Democtl.{TourFlags, config_of, chosen, run_tour, run_verify_baseline}
use vikasa_demo.Cmd.Democtl.Agreement.{run_verify_baseline-assert_baseline}
use vikasa_demo.Cmd.Democtl.Tour.{Concludes, run_tour_zero}

run_verify_baseline-assert_baseline_example :
    (run_verify_baseline stage.net "mardot" "http://localhost:8123" false 0 ≡ (3, 0))
    ↔ (assert_baseline stage "http://localhost:8123" (database "mardot") 0 ≡ (3, ok tt))
run_verify_baseline-assert_baseline_example =
    run_verify_baseline-assert_baseline stage "mardot" "http://localhost:8123" 0 3 refl

abbrev ai_config : AiConfig
ai_config = record { grafana = ""; ch = ""; dot = ""; prompts_path = "" }

host_and_port : split_host_port "http://db:8124/x" ≡ ("db", "8124")
unfolding split_host_port after_scheme before_slash last_colon
host_and_port = refl

split_only_names-SplitsAs_example :
    SplitsAs true (names_of_only "wan-cut, ai-qa") (split_only_names "wan-cut, ai-qa" true)
split_only_names-SplitsAs_example = split_only_names-SplitsAs "wan-cut, ai-qa" true

abbrev flags : TourFlags
flags = record {
  paced = false;
  verify = true;
  ai = true;
  dot = "mardot";
  ch = "";
  grafana = "";
  compose_file = "";
  fleet = "";
  settle = 1;
  only = "";
}

abbrev info : FleetInfo
info = record {
  sim_ports = ("cab-i85-001", 18081) ∷ ("cab-002", 18082) ∷ [];
  corridor_cabinets = "cab-i85-001" ∷ [];
}

abbrev all : List (Phase stage)
all = phase_table stage (with_defaults (config_of flags)) 18081 18082 info.corridor_cabinets

run_tour_zero_example :
    (run_tour stage flags (ok info) [] (entered ∷ []) 0 ≡ (9, 0))
    ↔ ((s1 : ℕ) × AllGoWell stage 1 all 0 s1 × Concludes stage flags [] (entered ∷ []) s1 9)
unfolding build_phases with_fault_port split_only_names chosen get
run_tour_zero_example =
    run_tour_zero stage flags (ok info) [] (entered ∷ []) all all [] [] 0 9 refl refl refl refl

-- with the name of one standard phase
abbrev named : TourFlags
named = record flags { only = "baseline"; paced = true; verify = false }

abbrev first_phase : List (Phase stage)
unfolding chosen
first_phase = elim (chosen stage "baseline" all ("baseline" ∷ [])) [
  | ok phases ↦ phases
  | err names ↦ []
]
