-- ===== src/Tour/Ai/Takes.antt =====
-- The two phases of internal/tour/ai.go where none of them is asked for by its name.
use vikasa_demo.Base.{true, false, List, [], ok, err, Result, ◌≡◌, refl, ap, Bool-cases, inl, inr}
use vikasa_demo.Tour.Stage.{Stage}
use vikasa_demo.Tour.Runs.{Line, Gate, go, stop, refuse, wait_for_enter}
use vikasa_demo.Tour.Ai.{
  AiConfig, AiError, stdin_broken, bad_take, with_ai_defaults, setup_args, gate_args, dedup_args,
  at_prompt, questions, run_ai_build_phase, run_ai_phases,
}

module _ (T : Stage) where
  open T use {net, democtl}

  -- How both phases of the assistant end: the setup is run, the prompt is answered, and with it the take
  -- is checked; the count of the duplicates follows unless the take is rejected or the input breaks.
  pub data RunsBoth (c : AiConfig) (lines : List Line) (s : net.State)
      (q : net.State × Result AiError (Unit {0})) : Type 0 where
    accepted :
        (s1 s2 : net.State)
        → (democtl (setup_args T c) s).0 ≡ s1
        → (wait_for_enter lines).0 ≡ go
        → democtl (gate_args T c) s1 ≡ (s2, true)
        → q ≡ ((democtl (dedup_args T c) s2).0, ok tt)
        → RunsBoth c lines s q
    rejected :
        (s1 s2 : net.State)
        → (democtl (setup_args T c) s).0 ≡ s1
        → (wait_for_enter lines).0 ≡ go
        → democtl (gate_args T c) s1 ≡ (s2, false)
        → q ≡ (s2, err bad_take)
        → RunsBoth c lines s q
    unchecked :
        (s1 : net.State)
        → (democtl (setup_args T c) s).0 ≡ s1
        → (wait_for_enter lines).0 ≡ stop
        → q ≡ ((democtl (dedup_args T c) s1).0, ok tt)
        → RunsBoth c lines s q
    broken :
        (s1 : net.State)
        → (democtl (setup_args T c) s).0 ≡ s1
        → (wait_for_enter lines).0 ≡ refuse
        → q ≡ (s1, err stdin_broken)
        → RunsBoth c lines s q

  at_gate :
      (config : AiConfig) (lines : List Line) (s : net.State) (gate : Gate)
      → (wait_for_enter lines).0 ≡ gate
      → RunsBoth (with_ai_defaults config) lines s (
          questions T [] (with_ai_defaults config) (
            at_prompt T gate
              (with_ai_defaults config)
              (democtl (setup_args T (with_ai_defaults config)) s).0))
  unfolding questions
  at_gate config lines s go e =
      let c = with_ai_defaults config in
      let s1 = (democtl (setup_args T c) s).0 in
      let (s2, well) = democtl (gate_args T c) s1 in
      elim (Bool-cases well) [
        | inl f ↦ accepted s1 s2 refl e (ap (λ b. (s2, b)) f) (rw f refl)
        | inr f ↦ rejected s1 s2 refl e (ap (λ b. (s2, b)) f) (rw f refl)
      ]
  at_gate config lines s stop e = unchecked _ refl e refl
  at_gate config lines s refuse e = broken _ refl e refl

  -- Without a name of the assistant's, both of its phases run.
  pub run_ai_phases-RunsBoth :
      (config : AiConfig) (lines : List Line) (s : net.State)
      → RunsBoth (with_ai_defaults config) lines s (run_ai_phases T config [] lines s)
  unfolding run_ai_phases run_ai_build_phase
  run_ai_phases-RunsBoth config lines s = at_gate config lines s (wait_for_enter lines).0 refl
