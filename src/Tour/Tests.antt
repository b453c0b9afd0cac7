-- ===== src/Tour/Tests.antt =====
-- A stage on which all goes well, and a table of two phases, for the tests.
use vikasa_demo.Base.{
  suc, ◌≡◌, refl, ◌↔◌, true, false, String, List, [], ◌∷◌, some, none, ok, pos, arith, Bool-cases,
  inl, inr, str_eq,
}
use vikasa_demo.Verify.Tests.{always}
use vikasa_demo.Verify.Answers.{is_space, trim_space}
use vikasa_demo.Tour.Stage.{Stage}
use vikasa_demo.Tour.Phase.{Phase, assert_baseline}
use vikasa_demo.Tour.Phase.Baseline.{ask_healthy, assert_baseline-ask_healthy}
use vikasa_demo.Tour.Runs.{run_verify, run_paced}
use vikasa_demo.Tour.Runs.Verified.{AllGoWell, run_verify_refines}
use vikasa_demo.Tour.Runs.Paced.{enters, act_all, first_phases, run_paced_actions}
use vikasa_demo.Tour.Table.{Config}
use vikasa_demo.Tour.Filter.{filter_phases}
use vikasa_demo.Tour.Filter.Selection.{asks, is_name, select, filter_phases-select}

abbrev pub stage : Stage
stage = record {
  net = always "1\n";
  democtl = λ args n. (n, true);
  decode_health = λ body. some (pos 0);
  print_port = λ port. "18081";
  sleep = λ time n. (n, false);
  has_ended = λ n. false;
}

abbrev pub phases : List (Phase stage)
phases =
    record { name = "one"; action = some (λ n. (suc n, ok tt)); settle = 5; assertion = none }
    ∷ record { name = "two"; action = none; settle = 0; assertion = some (λ n. (n, ok tt)) }
    ∷ []

run_verify_refines_example :
    (run_verify stage phases 0 3 ≡ (4, ok tt)) ↔ AllGoWell stage 0 phases 3 4
run_verify_refines_example = run_verify_refines stage 0 phases 3 4

run_paced_actions_example :
    run_paced stage phases (enters 3) 3 ≡ (act_all stage (first_phases stage 2 phases) 3, ok tt)
run_paced_actions_example = run_paced_actions stage (λ n. refl) 3 phases 3

two_is_name : (k : String) → asks (" two" ∷ []) k ≡ true → is_name stage k phases ≡ true
unfolding is_space trim_space
two_is_name k h = elim (Bool-cases (str_eq "two" k)) [
  | inl e ↦ rw e (ground arith)
  | inr e ↦ let g = rw e at h in absurd (cc)
]

filter_phases-select_example :
    filter_phases stage phases (" two" ∷ []) ≡ ok (select stage (asks (" two" ∷ [])) phases)
unfolding is_space trim_space
filter_phases-select_example =
    filter_phases-select stage phases (" two" ∷ []) (refl, (refl, tt)) two_is_name "two" refl

abbrev pub config : Config
config = record { ch = ""; grafana = ""; compose_file = ""; fleet_path = ""; dot = "" }

assert_baseline-ask_healthy_example :
    (assert_baseline stage "http://localhost:8123" "vikasa_mardot" 0 ≡ (3, ok tt))
    ↔ (ask_healthy stage "http://localhost:8123" "vikasa_mardot" 0 ≡ (3, ok tt))
assert_baseline-ask_healthy_example =
    assert_baseline-ask_healthy stage "http://localhost:8123" "vikasa_mardot" 0 3
