-- ===== src/Tour/Runs/Paced.antt =====
-- The paced run (runPaced of internal/tour/tour.go) on a presenter who presses Enter a number of times.
use vikasa_demo.Base.{
  ℕ, zero, suc, ◌+◌, ◌/◌, ◌≡◌, refl, sym, ap, ◌∙◌, false, List, [], ◌∷◌, ok, arith,
}
use vikasa_demo.Tour.Stage.{Stage}
use vikasa_demo.Tour.Phase.{Phase}
use vikasa_demo.Tour.Runs.{Line, entered, act, run_paced}

abbrev pub enters : ℕ → List Line
enters zero = []
enters (suc n) = entered ∷ enters n

module _ (T : Stage) where
  open T use {net, has_ended}

  abbrev pub first_phases : ℕ → List (Phase T) → List (Phase T)
  first_phases zero ps = []
  first_phases (suc n) [] = []
  first_phases (suc n) (p ∷ ps) = p ∷ first_phases n ps

  none_of_none : (n : ℕ) → first_phases n [] ≡ []
  none_of_none zero = refl
  none_of_none (suc n) = refl

  -- the actions of phases, one after the other, whether or not they go well
  abbrev pub act_all : List (Phase T) → net.State → net.State
  act_all [] s = s
  act_all (p ∷ ps) s = act_all ps (act T p.action s).0

  -- Where the context does not end, a paced run with a number of presses of Enter before the end of the
  -- input performs the actions of the first phases, half of that number rounded up, in order and
  -- nothing more, and ends without an error.
  pub run_paced_actions :
      (alive : (s : net.State) → has_ended s ≡ false) (n : ℕ) (ps : List (Phase T)) (s : net.State)
      → run_paced T ps (enters n) s ≡ (act_all (first_phases ((n + 1) / 2) ps) s, ok tt)
  unfolding run_paced
  run_paced_actions alive zero [] s = refl
  run_paced_actions alive zero (p ∷ ps) s = rw (alive s) refl
  run_paced_actions alive (suc zero) [] s = refl
  run_paced_actions alive (suc zero) (p ∷ ps) s = rw (alive s) refl
  run_paced_actions alive (suc (suc n)) [] s =
      ap (λ l. (act_all l s, ok tt)) (sym (none_of_none ((suc (suc n) + 1) / 2)))
  run_paced_actions alive (suc (suc n)) (p ∷ ps) s =
      let e : suc ((n + 1) / 2) ≡ (suc (suc n) + 1) / 2 = omega arith in
      rw (alive s, run_paced)
        (run_paced_actions alive n ps (act T p.action s).0
          ∙ ap (λ k. (act_all (first_phases k (p ∷ ps)) s, ok tt)) e)
