-- ===== src/Sim/Asc/Timing.antt =====
-- The cycle time and the termination reasons of internal/sim/asc.go.
use vikasa_demo.Base.{ℕ, zero, suc, ◌+◌, ◌*◌, ◌<◌, ◌≡◌, ◌≢◌, refl, ap, ◌∙◌, false, arith}
use vikasa_demo.Sim.Emitter.{second}
use vikasa_demo.Sim.Runtime.{Runtime}
use vikasa_demo.Sim.Demand.{Demand, clamp_float}
use vikasa_demo.Sim.Asc.Plan.{PhaseDef}
use vikasa_demo.Sim.Asc.State.{Light, unlit, green, yellow, red}
use vikasa_demo.Sim.Asc.View.{View, view}
use vikasa_demo.Sim.Asc.Phases.{next_view, view-advance}
use vikasa_demo.Sim.Asc.{Street, advance_state, max_out_probability}

abbrev next : View → View
next v = next_view v.state v

abbrev times : ℕ → View → View
times zero v = v
times (suc n) v = times n (next v)

-- Twelve boundaries lead back to the same phase and state, 90 seconds later.
ring_time :
    (v : View)
    → v.idx < 4
    → v.state ≢ unlit
    → ((times 12 v).idx ≡ v.idx)
      × ((times 12 v).state ≡ v.state)
      × ((times 12 v).state_until ≡ v.state_until + 90 * second)
ring_time v h n = go v.idx v.state h n
  where
    go :
        (i : ℕ) (l : Light)
        → i < 4
        → l ≢ unlit
        → let w = record v { idx = i; state = l } in
          ((times 12 w).idx ≡ i)
          × ((times 12 w).state ≡ l)
          × ((times 12 w).state_until ≡ v.state_until + 90 * second)
    go i unlit h n = absurd (n refl)
    go zero green h n = (refl, refl, omega arith)
    go zero yellow h n = (refl, refl, omega arith)
    go zero red h n = (refl, refl, omega arith)
    go (suc zero) green h n = (refl, refl, omega arith)
    go (suc zero) yellow h n = (refl, refl, omega arith)
    go (suc zero) red h n = (refl, refl, omega arith)
    go (suc (suc zero)) green h n = (refl, refl, omega arith)
    go (suc (suc zero)) yellow h n = (refl, refl, omega arith)
    go (suc (suc zero)) red h n = (refl, refl, omega arith)
    go (suc (suc (suc zero))) green h n = (refl, refl, omega arith)
    go (suc (suc (suc zero))) yellow h n = (refl, refl, omega arith)
    go (suc (suc (suc zero))) red h n = (refl, refl, omega arith)
    go (suc (suc (suc (suc i)))) l h n = absurd (omega arith)

module _ (N : Runtime) where
  abbrev pub boundaries : ℕ → Street N → Street N
  boundaries zero s = s
  boundaries (suc n) s = boundaries n (advance_state N s)

  view-boundaries : (n : ℕ) (s : Street N) → view (boundaries n s).unit ≡ times n (view s.unit)
  view-boundaries zero s = refl
  view-boundaries (suc n) s =
      view-boundaries n (advance_state N s) ∙ ap (times n) (view-advance N s.unit.asc.state s)

  -- Of a controller that runs, twelve state boundaries in a row lead back to the same phase and
  -- state, and their deadline is 90 seconds later.
  pub boundaries_cycle :
      (s : Street N)
      → s.unit.asc.idx < 4
      → s.unit.asc.state ≢ unlit
      → let a = (boundaries 12 s).unit.asc in
        (a.idx ≡ s.unit.asc.idx)
        × (a.state ≡ s.unit.asc.state)
        × (a.state_until ≡ s.unit.asc.state_until + 90 * second)
  boundaries_cycle s h n =
      let e = view-boundaries 12 s in
      let (i, l, t) = ring_time (view s.unit) h n in
      (
        ap (λ (v : View). v.idx) e ∙ i,
        ap (λ (v : View). v.state) e ∙ l,
        ap (λ (v : View). v.state_until) e ∙ t,
      )

  clamp_float_bounds :
      (v lo hi : N.F)
      → N.lt hi lo ≡ false
      → (N.lt (clamp_float N v lo hi) lo ≡ false) × (N.lt hi (clamp_float N v lo hi) ≡ false)
  unfolding clamp_float
  clamp_float_bounds v lo hi h = ground (arith, N.lt_irrefl lo, N.lt_irrefl hi)

  -- Whatever the demand and the arrivals, the probability of a MAX_OUT is not below 0.03 and not
  -- above 0.6, where 0.6 is not below 0.03.
  pub max_out_probability_bounds :
      (d : Demand N) (at : ℕ) (ph : PhaseDef) (green_count : ℕ)
      → N.lt (N.lit 60 100) (N.lit 3 100) ≡ false
      → (N.lt (max_out_probability N d at ph green_count) (N.lit 3 100) ≡ false)
        × (N.lt (N.lit 60 100) (max_out_probability N d at ph green_count) ≡ false)
  unfolding max_out_probability
  max_out_probability_bounds d at ph green_count h =
      clamp_float_bounds _ (N.lit 3 100) (N.lit 60 100) h
