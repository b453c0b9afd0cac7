-- ===== src/Sim/Asc/Order.antt =====
-- Over every sequence of calls, the phase changes that internal/sim/asc.go announces go round the
-- ring in order.
use mathlib.Core.Path.{subst}
use vikasa_demo.Base.{
  ℕ, ◌+◌, ◌-◌, ◌≡◌, refl, sym, ◌∙◌, Bool, true, false, List, [], ◌∷◌, ◌++◌, if-cases, if◌then◌else◌,
  String, ℤ,
}
use vikasa_demo.Sim.Runtime.{Runtime}
use vikasa_demo.Sim.Demand.{Demand}
use vikasa_demo.Sim.Asc.State.{
  Light, unlit, green, yellow, red, no_reason, Controller, new_asc, flashing, inject_fault,
  clear_fault, set_ped_cadence_multiplier,
}
use vikasa_demo.Sim.Asc.View.{View, view, phase_log}
use vikasa_demo.Sim.Asc.Phases.{
  IsRing, onset, next_view, next-IsRing, view-emit_phase, catch_up-inv,
}
use vikasa_demo.Sim.Asc.Ticks.{started_unit, view-sense, settle_flash-state}
use vikasa_demo.Sim.Asc.{Street, start, settle_flash, sense, catch_up, cycle, tick}

abbrev Ring : Bool → List (ℕ × Light) → ℕ → Light → Type 0
Ring true log idx state = IsRing log idx state
Ring false log idx state = log ≡ []

-- A started controller has gone round the ring; any other has announced nothing.
abbrev InRing : View → Type 0
InRing v = Ring v.started v.log v.idx v.state

abbrev Running : View → Type 0
Running v = (v.started ≡ true) × IsRing v.log v.idx v.state

InRing-started : (now : ℕ) (u : Controller) → InRing (view u) → Running (view (started_unit now u))
unfolding start
InRing-started now u h = go u.asc.started refl h
  where
    go :
        (b : Bool)
        → u.asc.started ≡ b
        → Ring b (phase_log u.sent) u.asc.idx u.asc.state
        → Running (view (if b then u else start now u))
    go true e r = (e, r)
    go false e r =
        subst Running (sym (view-emit_phase 2 green no_reason now _))
          (refl, subst (λ l. IsRing (l ++ (2, green) ∷ []) 0 green) (sym r) onset)

next-started : (l : Light) (v : View) → (next_view l v).started ≡ v.started
next-started unlit v = refl
next-started green v = refl
next-started yellow v = refl
next-started red v = refl

module _ (N : Runtime) where
  cycle-Running :
      (now : ℕ) (s : Street N) → Running (view s.unit) → Running (view (cycle N now s).unit)
  unfolding cycle
  cycle-Running now s (started, ring) =
      let s' : Street N = record s { unit = record s.unit { asc = settle_flash now s.unit.asc } } in
      let (state, idx, same) = settle_flash-state now s.unit.asc in
      let ring' : Running (view s'.unit) = (same ∙ started, rw (state, idx) ring) in
      if-cases (λ (t : Street N). Running (view t.unit)) (flashing s.unit.asc) s'
        (catch_up N (now + 1 - s'.unit.asc.state_until) now s') (λ _. ring')
        (λ _.
          catch_up-inv N Running (λ v (st, r). (next-started v.state v ∙ st, next-IsRing v r)) _ now
            s' ring')

  tick-Running :
      (now : ℕ) (s : Street N) → InRing (view s.unit) → Running (view (tick N now s).unit)
  unfolding tick
  tick-Running now s h =
      cycle-Running now (sense N now s)
        (subst Running (sym (view-sense N now s)) (InRing-started now s.unit h))

  -- The calls that the rest of the program makes of a controller, and of its demand meanwhile.
  pub data Call : Type 0 where
    inject_call clear_call : String → Call
    cadence_call : ℤ → Call
    demand_call : Demand N → Call
    tick_call : ℕ → Call

  unfoldable pub perform : Call → Street N → Street N
  perform (inject_call id) s = record s {
    unit = record s.unit { asc = inject_fault id s.unit.asc };
  }
  perform (clear_call id) s = record s { unit = record s.unit { asc = clear_fault id s.unit.asc } }
  perform (cadence_call m) s = record s {
    unit = record s.unit { asc = set_ped_cadence_multiplier m s.unit.asc };
  }
  perform (demand_call d) s = record s { demand = d }
  perform (tick_call now) s = tick N now s

  unfoldable pub perform_all : List Call → Street N → Street N
  unfolding perform
  perform_all [] s = s
  perform_all (c ∷ cs) s = perform_all cs (perform c s)

  perform-InRing :
      (c : Call) (s : Street N) → InRing (view s.unit) → InRing (view (perform c s).unit)
  unfolding perform inject_fault clear_fault set_ped_cadence_multiplier
  perform-InRing (inject_call id) s h = h
  perform-InRing (clear_call id) s h = h
  perform-InRing (cadence_call m) s h = h
  perform-InRing (demand_call d) s h = h
  perform-InRing (tick_call now) s h =
      let (started, ring) = tick-Running now s h in
      let v = view (tick N now s).unit in subst (λ b. Ring b v.log v.idx v.state) (sym started) ring

  perform_all-InRing :
      (cs : List Call) (s : Street N) → InRing (view s.unit) → InRing (view (perform_all cs s).unit)
  unfolding perform_all
  perform_all-InRing [] s h = h
  perform_all-InRing (c ∷ cs) s h = perform_all-InRing cs (perform c s) (perform-InRing c s h)

  -- Whatever was called of a new controller before, with any faults, arrivals and gaps between the
  -- ticks, after a tick the phase changes announced go round the ring in order from the first green,
  -- and the last of them is the phase and the state that the controller is in.
  pub phases_in_order :
      (controller : String) (d : Demand N) (cs : List Call) (now : ℕ)
      → let s = tick N now (
          perform_all cs
            (record { demand = d; unit = record { asc = new_asc controller; sent = [] } })) in
        IsRing (phase_log s.unit.sent) s.unit.asc.idx s.unit.asc.state
  unfolding new_asc
  phases_in_order controller d cs now = (tick-Running now _ (perform_all-InRing cs _ refl)).1
