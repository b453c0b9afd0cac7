-- ===== src/Sim/Asc/Phases.antt =====
-- The phases of internal/sim/asc.go run through the ring in order, and a tick leaves none overdue.
use mathlib.Core.Path.{subst}
use vikasa_demo.Base.{
  ℕ, zero, suc, ◌+◌, ◌*◌, ◌%◌, ◌≤◌, ◌<◌, ◌≡◌, ◌≢◌, refl, sym, ap, ◌∙◌, List, [], ◌∷◌, ◌++◌, arith,
  ltb, ◌==◌, if-cases, Bool-cases, inl, inr, ltb→lt, lt→ltb,
}
use vikasa_demo.Sim.Emitter.{second}
use vikasa_demo.Sim.Runtime.{Runtime}
use vikasa_demo.Sim.Asc.Plan.{phase_at, plan_len}
use vikasa_demo.Sim.Asc.State.{
  Light, unlit, green, yellow, red, Reason, Controller, emit_phase, cadence,
}
use vikasa_demo.Sim.Asc.View.{View, view, phase_log, view-send, view-send_other}
use vikasa_demo.Sim.Asc.{
  Street, end_red, count_cycles, emit_pedestrian_and_coordination, advance_at, advance_state,
  catch_up,
}

-- One boundary of the ring, on the view.
abbrev pub next_view : Light → View → View
next_view green v = record v {
  state = yellow;
  state_until = v.state_until + 3 * second;
  log = v.log ++ ((phase_at v.idx).number, yellow) ∷ [];
}
next_view yellow v = record v {
  state = red;
  state_until = v.state_until + 2 * second;
  log = v.log ++ ((phase_at v.idx).number, red) ∷ [];
}
next_view red v =
    let i = (v.idx + 1) % plan_len in
    record v {
      idx = i;
      state = green;
      state_until = v.state_until + (phase_at i).green_sec * second;
      log = v.log ++ ((phase_at i).number, green) ∷ [];
    }
next_view unlit v = v

pub view-emit_phase :
    (phase : ℕ) (l : Light) (r : Reason) (at : ℕ) (u : Controller)
    → view (emit_phase phase l r at u)
      ≡ record (view u) { log = phase_log u.sent ++ (phase, l) ∷ [] }
unfolding emit_phase
view-emit_phase phase l r at u = view-send at _ _ ((phase, l) ∷ []) u (λ seq. refl)

view-pedestrian : (at : ℕ) (u : Controller) → view (emit_pedestrian_and_coordination at u) ≡ view u
unfolding emit_pedestrian_and_coordination
view-pedestrian at u =
    view-send_other at _ _ _ (λ seq. refl) ∙ view-send_other at _ _ u (λ seq. refl)

view-count_cycles : (at n : ℕ) (u : Controller) → view (count_cycles at n u) ≡ view u
unfolding count_cycles
view-count_cycles at zero u = refl
view-count_cycles at (suc n) u =
    view-count_cycles at n _
    ∙ if-cases (λ v. view v ≡ view u) (((u.asc.cycles + 1) % 5) == 0) _ _
        (λ _. view-pedestrian at _) (λ _. refl)

view-end_red : (u : Controller) → view (end_red u) ≡ next_view red (view u)
unfolding end_red
view-end_red u =
    let at = u.asc.state_until in
    let i = (u.asc.idx + 1) % plan_len in
    let u1 : Controller = record u { asc = record u.asc { idx = i } } in
    view-emit_phase _ green _ at _
    ∙ ap
        (λ (v : View). record v {
          state = green;
          state_until = at + (phase_at i).green_sec * second;
          log = v.log ++ ((phase_at i).number, green) ∷ [];
        })
        (if-cases (λ v. view v ≡ view u1) (i == 0)
          (count_cycles at (cadence u.asc.ped_cadence_mult) u1) u1
          (λ _. view-count_cycles at (cadence u.asc.ped_cadence_mult) u1) (λ _. refl))

-- The phase changes so far go round the ring in order, from the green of its first phase, and the
-- last one is the state that the controller is in.
pub data IsRing : List (ℕ × Light) → ℕ → Light → Type 0 where
  onset : IsRing (((phase_at 0).number, green) ∷ []) 0 green
  to_yellow :
      {l : List (ℕ × Light)} {i : ℕ}
      → IsRing l i green
      → IsRing (l ++ ((phase_at i).number, yellow) ∷ []) i yellow
  to_red :
      {l : List (ℕ × Light)} {i : ℕ}
      → IsRing l i yellow
      → IsRing (l ++ ((phase_at i).number, red) ∷ []) i red
  to_green :
      {l : List (ℕ × Light)} {i : ℕ}
      → IsRing l i red
      → IsRing
          (l ++ ((phase_at ((i + 1) % plan_len)).number, green) ∷ [])
          ((i + 1) % plan_len)
          green

pub IsRing-lit : {l : List (ℕ × Light)} {i : ℕ} {s : Light} → IsRing l i s → s ≢ unlit
IsRing-lit onset = λ e. cc
IsRing-lit (to_yellow r) = λ e. cc
IsRing-lit (to_red r) = λ e. cc
IsRing-lit (to_green r) = λ e. cc

pub next-IsRing :
    (v : View)
    → IsRing v.log v.idx v.state
    → IsRing (next_view v.state v).log (next_view v.state v).idx (next_view v.state v).state
next-IsRing v r = go v.state refl r
  where
    go :
        (l : Light)
        → v.state ≡ l
        → IsRing v.log v.idx l
        → IsRing (next_view l v).log (next_view l v).idx (next_view l v).state
    go green e r = to_yellow r
    go yellow e r = to_red r
    go red e r = to_green r
    go unlit e r = absurd (IsRing-lit r refl)

pub green_sec_pos : (i : ℕ) → 10 ≤ (phase_at i).green_sec
green_sec_pos zero = omega arith
green_sec_pos (suc zero) = omega arith
green_sec_pos (suc (suc zero)) = omega arith
green_sec_pos (suc (suc (suc i))) = omega arith

-- A boundary leaves the controller lit and moves the next one on by two seconds or more.
next-later :
    (v : View)
    → v.state ≢ unlit
    → ((next_view v.state v).state ≢ unlit)
      × (v.state_until + 2 * second ≤ (next_view v.state v).state_until)
next-later v h = go v.state h
  where
    go :
        (l : Light)
        → l ≢ unlit
        → ((next_view l v).state ≢ unlit)
          × (v.state_until + 2 * second ≤ (next_view l v).state_until)
    go green n = ((λ e. cc), omega arith)
    go yellow n = ((λ e. cc), omega arith)
    go red n = ((λ e. cc), omega (arith, green_sec_pos ((v.idx + 1) % plan_len)))
    go unlit n = absurd (n refl)

module _ (N : Runtime) where
  pub view-advance :
      (l : Light) (s : Street N) → view (advance_at N l s).unit ≡ next_view l (view s.unit)
  unfolding advance_at
  view-advance green s = view-emit_phase _ yellow _ _ _
  view-advance yellow s = view-emit_phase _ red _ _ _
  view-advance red s = view-end_red s.unit
  view-advance unlit s = refl

  -- A property of views that each boundary keeps is kept by the catch-up loop.
  pub catch_up-inv :
      (P : View → Type 0)
      → ((v : View) → P v → P (next_view v.state v))
      → (fuel now : ℕ) (s : Street N) → P (view s.unit)
      → P (view (catch_up N fuel now s).unit)
  unfolding catch_up
  catch_up-inv P keep zero now s h = h
  catch_up-inv P keep (suc fuel) now s h = elim (Bool-cases (ltb now s.unit.asc.state_until)) [
    | inl e ↦ rw (e, catch_up) h
    | inr e ↦
        rw (e, catch_up)
          (catch_up-inv P keep fuel now (advance_state N s)
            (subst P (sym (view-advance s.unit.asc.state s)) (keep (view s.unit) h)))
  ]

  pub catch_up-done :
      (fuel now : ℕ) (s : Street N) → now < s.unit.asc.state_until → catch_up N fuel now s ≡ s
  unfolding catch_up
  catch_up-done zero now s h = refl
  catch_up-done (suc fuel) now s h = rw (lt→ltb _ _ h, catch_up)

  -- With fuel beyond the overdue time the loop ends with the boundary in the future.
  pub catch_up-future :
      (fuel now : ℕ) (s : Street N)
      → s.unit.asc.state ≢ unlit
      → now < s.unit.asc.state_until + fuel
      → now < (catch_up N fuel now s).unit.asc.state_until
  unfolding catch_up
  catch_up-future zero now s h f = omega arith
  catch_up-future (suc fuel) now s h f = elim (Bool-cases (ltb now s.unit.asc.state_until)) [
    | inl e ↦ rw (e, catch_up) (ltb→lt _ _ e)
    | inr e ↦
        rw (e, catch_up)
          (let later =
              subst
                (λ (w : View).
                  (w.state ≢ unlit) × (s.unit.asc.state_until + 2 * second ≤ w.state_until))
                (sym (view-advance s.unit.asc.state s)) (next-later (view s.unit) h) in
            catch_up-future fuel now (advance_state N s) later.0 (omega (arith, later.1)))
  ]
