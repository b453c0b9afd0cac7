-- ===== src/Tour/Ai.antt =====
-- internal/tour/ai.go: the phases of the assistant. What is printed for the presenter, and the file of
-- the questions, which is only printed, are left out.
pub mod Takes
use vikasa_demo.Base.{
  Bool, true, false, ◌&&◌, ◌||◌, not, ◌==◌, Char, code, String, List, [], ◌∷◌, Option, none, some,
  str_eq, if◌then◌else◌, is_nonempty, Result, ok, err,
}
use vikasa_demo.Tour.Stage.{Stage}
use vikasa_demo.Tour.Filter.{Want, is_wanted}
use vikasa_demo.Tour.Table.{or_default}
use vikasa_demo.Tour.Runs.{Line, Gate, go, stop, refuse, wait_for_enter}

abbrev pub phase_ai_build : String
phase_ai_build = "ai-build"

abbrev pub phase_ai_qa : String
phase_ai_qa = "ai-qa"

pub record AiConfig : Type 0 where
  pub grafana : String
  pub ch : String
  pub dot : String
  pub prompts_path : String

unfoldable pub with_ai_defaults : AiConfig → AiConfig
with_ai_defaults c = record {
  grafana = or_default c.grafana "http://localhost:3000";
  ch = or_default c.ch "http://localhost:8123";
  dot = or_default c.dot "mardot";
  prompts_path = or_default c.prompts_path "demo/ai/prompts/questions.md";
}

-- what follows "://" at the start of a text
abbrev pub scheme_rest : String → Option String
scheme_rest (String.◌∷◌ c (String.◌∷◌ d (String.◌∷◌ e s))) =
    if (code c == 58) && (code d == 47) && (code e == 47) then some s else none
scheme_rest _ = none

-- what follows the first "://", or the whole text
unfoldable pub after_scheme : String → Option String
after_scheme String.[] = none
after_scheme (String.◌∷◌ c s) =
    let rest = after_scheme s in
    elim (scheme_rest (String.◌∷◌ c s)) [ some t ↦ some t | none ↦ rest ]

-- what is before the first "/"
unfoldable pub before_slash : String → String
before_slash String.[] = ""
before_slash (String.◌∷◌ c s) =
    let rest = before_slash s in if code c == 47 then "" else String.◌∷◌ c rest

-- the two sides of the last ":"
unfoldable pub last_colon : String → Option (String × String)
last_colon String.[] = none
last_colon (String.◌∷◌ c s) = elim (last_colon s) [
  | some (host, port) ↦ some (String.◌∷◌ c host, port)
  | none ↦ if code c == 58 then some ("", s) else none
]

abbrev pub text_or : String → Option String → String
text_or s none = s
text_or s (some t) = t

abbrev pub host_port_or : String → Option (String × String) → String × String
host_port_or s none = (s, "8123")
host_port_or s (some p) = p

unfoldable pub split_host_port : String → String × String
unfolding after_scheme before_slash last_colon
split_host_port url =
    let s = before_slash (text_or url (after_scheme url)) in host_port_or s (last_colon s)

-- a prompt that cannot be read, and a take that does not pass
pub data AiError : Type 0 where
  stdin_broken bad_take : AiError

-- len(only) == 0 || only[name]
abbrev pub runs : String → Want → Bool
runs name only = not (is_nonempty only) || is_wanted name only

module _ (T : Stage) where
  open T use {net, democtl}

  abbrev pub setup_args : AiConfig → List String
  unfolding split_host_port
  setup_args c =
      "ai-setup"
      ∷ "--grafana"
      ∷ c.grafana
      ∷ "--ch-host"
      ∷ (split_host_port c.ch).0
      ∷ "--ch-port"
      ∷ (split_host_port c.ch).1
      ∷ []

  abbrev pub gate_args : AiConfig → List String
  gate_args c = "verify" ∷ "ai-dashboard" ∷ "--grafana" ∷ c.grafana ∷ "--ch" ∷ c.ch ∷ []

  abbrev pub dedup_args : AiConfig → List String
  dedup_args c = "verify" ∷ "dedup" ∷ "--dot" ∷ c.dot ∷ "--ch" ∷ c.ch ∷ []

  abbrev pub take_of : net.State × Bool → net.State × Result AiError (Unit {0})
  take_of (s, well) = (s, if well then ok tt else err bad_take)

  abbrev pub at_prompt : Gate → AiConfig → net.State → net.State × Result AiError (Unit {0})
  at_prompt go c s = take_of (democtl (gate_args c) s)
  at_prompt stop c s = (s, ok tt)
  at_prompt refuse c s = (s, err stdin_broken)

  -- A setup that fails does not end the phase.
  unfoldable pub run_ai_build_phase :
      AiConfig → List Line → net.State → List Line × (net.State × Result AiError (Unit {0}))
  run_ai_build_phase c lines s =
      let (gate, lines') = wait_for_enter lines in
      (lines', at_prompt gate c (democtl (setup_args c) s).0)

  unfoldable pub run_ai_qa_phase : AiConfig → net.State → net.State
  run_ai_qa_phase c s = (democtl (dedup_args c) s).0

  unfoldable pub questions :
      Want
      → AiConfig
      → net.State × Result AiError (Unit {0})
      → net.State × Result AiError (Unit {0})
  unfolding run_ai_qa_phase
  questions only c (s, err e) = (s, err e)
  questions only c (s, ok _) = (if runs phase_ai_qa only then run_ai_qa_phase c s else s, ok tt)

  -- RunAIPhases, with its defaults
  unfoldable pub run_ai_phases :
      AiConfig → Want → List Line → net.State → net.State × Result AiError (Unit {0})
  unfolding run_ai_build_phase questions
  run_ai_phases config only lines s =
      let c = with_ai_defaults config in
      questions only c
        (if runs phase_ai_build only then (run_ai_build_phase c lines s).1 else (s, ok tt))
