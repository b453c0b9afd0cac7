-- ===== src/Tour/Stage.antt =====
-- What a phase of the tour reaches: ClickHouse, the simulators (internal/tour/sim.go), democtl
-- (internal/tour/exec.go) and the clock; and the errors of the phases.
use vikasa_demo.Base.{
  ℕ, Bool, String, List, [], ◌∷◌, Option, none, some, if◌then◌else◌, ◌==◌, texts, ℤ, Result, ok,
  err,
}
use vikasa_demo.Verify.Answers.{VerifyError, parse_count}
use vikasa_demo.Verify.Network.{
  Network, Reply, unbuilt, unsent, answered, Live, ◌>>=◌, pure, ch_query,
}

pub data TourFault : Type 0 where
  of_verify : VerifyError → TourFault
  -- a text in front of an error
  within : String → TourFault → TourFault
  -- an expectation that does not hold
  unexpected : String → TourFault
  bad_request no_response bad_health bad_command : TourFault
  bad_status : ℕ → TourFault

pub record Stage : Type 1 where
  pub net : Network
  -- the running binary with other arguments, and whether it ends well
  pub democtl : List String → net.State → net.State × Bool
  -- the field `dropped` of the JSON of a health report
  pub decode_health : String → Option ℤ
  pub print_port : ℕ → String
  -- a wait, in seconds, and whether the context has ended before it
  pub sleep : ℕ → net.State → net.State × Bool
  -- ctx.Err
  pub has_ended : net.State → Bool

abbrev pub of_result : {A : Type 0} → Result VerifyError A → Result TourFault A
of_result (ok x) = ok x
of_result (err e) = err (of_verify e)

abbrev pub within_result : {A : Type 0} → String → Result TourFault A → Result TourFault A
within_result text (ok x) = ok x
within_result text (err e) = err (within text e)

-- `fmt.Errorf("…: %w", err)`, of the error of a step
abbrev pub labelled : {S A : Type 0} → String → Live S TourFault A → Live S TourFault A
labelled text m s = let (s', r) = m s in (s', within_result text r)

-- An expectation, with the text of its error.
abbrev pub expect : {S : Type 0} → Bool → String → Live S TourFault (Unit {0})
expect b text s = (s, if b then ok tt else err (unexpected text))

module _ (T : Stage) where
  open T use {net, democtl, decode_health, print_port}

  abbrev pub Act : Type 0 → Type 0
  Act = Live net.State TourFault

  unfoldable pub query : String → String → Act String
  unfolding ch_query
  query ch q s = let (s', r) = ch_query net ch q s in (s', of_result r)

  unfoldable pub query_scalar : String → String → Act ℤ
  unfolding query parse_count
  query_scalar ch q = do out ← query ch q; pure (of_result (parse_count out))

  unfoldable pub read_inject : Reply → Result TourFault (Unit {0})
  read_inject unbuilt = err bad_request
  read_inject unsent = err no_response
  read_inject (answered status body) = if status == 202 then ok tt else err (bad_status status)

  unfoldable pub inject_scenario : ℕ → String → Act (Unit {0})
  unfolding read_inject
  inject_scenario port scenario s =
      let url = texts ("http://localhost:" ∷ print_port port ∷ "/inject/" ∷ scenario ∷ []) in
      let (s', reply) = net.post url "" s in (s', read_inject reply)

  abbrev health_of : Option ℤ → Result TourFault ℤ
  health_of none = err bad_health
  health_of (some n) = ok n

  abbrev decoded : Option String → Option ℤ
  decoded none = none
  decoded (some body) = decode_health body

  unfoldable pub read_health : Reply → Result TourFault ℤ
  read_health unbuilt = err bad_request
  read_health unsent = err no_response
  read_health (answered status body) =
      if status == 200 then health_of (decoded body) else err (bad_status status)

  unfoldable pub sim_dropped : ℕ → Act ℤ
  unfolding read_health
  sim_dropped port s =
      let (s', reply) =
        net.get (texts ("http://localhost:" ∷ print_port port ∷ "/healthz" ∷ [])) s in
      (s', read_health reply)

  unfoldable pub run_democtl : List String → Act (Unit {0})
  run_democtl args s =
      let (s', well) = democtl args s in (s', if well then ok tt else err bad_command)
