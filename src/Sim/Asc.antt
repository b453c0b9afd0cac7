-- ===== src/Sim/Asc.antt =====
-- internal/sim/asc.go: the signal controller of a cabinet, driven by `tick`. It shares the cabinet's
-- demand and draws from its generator, so a step takes the demand beside the controller.
pub mod Plan
pub mod State
pub mod Sensors
pub mod View
pub mod Phases
pub mod Ticks
pub mod Order
pub mod Timing
pub mod Arrivals
use vikasa_demo.Base.{
  ℕ, zero, suc, ◌+◌, ◌-◌, ◌*◌, ◌%◌, Bool, true, false, not, ◌&&◌, Option, none, some, ltb, ◌==◌,
  if◌then◌else◌,
}
use vikasa_demo.Sim.Emitter.{second}
use vikasa_demo.Sim.Runtime.{Runtime}
use vikasa_demo.Sim.Demand.{Demand, draw, next_headway, volume_per_hour, clamp_float}
use vikasa_demo.Sim.Asc.Plan.{PhaseDef, phase_at, plan_len}
use vikasa_demo.Sim.Asc.State.{
  yellow_sec, all_red_sec, ped_coord_cycles, Light, unlit, green, yellow, red, no_reason, gap_out,
  max_out, pedestrian_event, coordination_change, Asc, flashing, cadence, Controller, send,
  emit_phase,
}
use vikasa_demo.Sim.Asc.Sensors.{arrive, expire, fire_faults, fire_status}

unfoldable pub emit_pedestrian_and_coordination : ℕ → Controller → Controller
emit_pedestrian_and_coordination at u =
    let ph = phase_at 0 in
    send at "vikasa.signal-control.coordination-change.v1"
      (coordination_change ph.number ph.green_sec ph.green_sec)
      (send at "vikasa.signal-control.pedestrian-event.v1" (pedestrian_event ph.number ph.channel)
        u)

unfoldable pub start : ℕ → Controller → Controller
start now u =
    let ph = phase_at 0 in
    emit_phase ph.number green no_reason now (record u {
      asc = record u.asc {
        started = true;
        idx = 0;
        state = green;
        state_until = now + ph.green_sec * second;
      };
    })

-- the duration of the state that flash interrupted
abbrev pub state_dur : Light → ℕ → ℕ
state_dur green idx = (phase_at idx).green_sec * second
state_dur yellow idx = yellow_sec * second
state_dur red idx = all_red_sec * second
state_dur unlit idx = 0

unfoldable pub resume_from_flash : ℕ → Asc → Asc
resume_from_flash now a = record a { state_until = now + state_dur a.state a.idx; green_count = 0 }

-- the loop over `mult` at the end of a ring cycle
unfoldable pub count_cycles : ℕ → ℕ → Controller → Controller
count_cycles at zero u = u
count_cycles at (suc n) u =
    let u' = record u { asc = record u.asc { cycles = u.asc.cycles + 1 } } in
    count_cycles at n (
      if (u'.asc.cycles % ped_coord_cycles) == 0
      then emit_pedestrian_and_coordination at u'
      else u')

unfoldable pub end_yellow : Controller → Controller
end_yellow u =
    let at = u.asc.state_until in
    emit_phase (phase_at u.asc.idx).number red no_reason at
      (record u { asc = record u.asc { state = red; state_until = at + all_red_sec * second } })

unfoldable pub end_red : Controller → Controller
end_red u =
    let at = u.asc.state_until in
    let idx = (u.asc.idx + 1) % plan_len in
    let u1 = record u { asc = record u.asc { idx = idx } } in
    let u2 = if idx == 0 then count_cycles at (cadence u.asc.ped_cadence_mult) u1 else u1 in
    let ph = phase_at idx in
    emit_phase ph.number green no_reason at (record u2 {
      asc = record u2.asc { state = green; state_until = at + ph.green_sec * second };
    })

-- Flash: the edge at which it ends, and whether the phases run.
unfoldable pub settle_flash : ℕ → Asc → Asc
settle_flash now a =
    let a' = if a.was_flashing && not (flashing a) then resume_from_flash now a else a in
    record a' { was_flashing = flashing a }

module _ (N : Runtime) where
  -- The cabinet's demand beside the controller.
  pub record Street : Type 0 where
    pub demand : Demand N
    pub unit : Controller

  unfoldable pub max_out_probability : Demand N → ℕ → PhaseDef → ℕ → N.F
  max_out_probability d at ph green_count =
      let vph = volume_per_hour N d at in
      let sat = N.div vph (N.lit 900 1) in
      let expected =
        N.div (N.mul (N.div vph (N.lit 3600 1)) (N.of_ℕ ph.green_sec)) (N.of_ℕ plan_len) in
      let pressure =
        if N.lt (N.lit 0 1) expected
        then N.sub (N.div (N.of_ℕ green_count) expected) (N.lit 1 1)
        else N.lit 0 1 in
      let p =
        N.add
          (N.add (N.lit 5 100) (N.mul (N.lit 45 100) (clamp_float N sat (N.lit 0 1) (N.lit 1 1))))
          (N.mul (N.lit 10 100)
            (clamp_float N pressure (N.sub (N.lit 0 1) (N.lit 1 1)) (N.lit 1 1))) in
      clamp_float N p (N.lit 3 100) (N.lit 60 100)

  -- GREEN to YELLOW, with the reason drawn from the demand's generator
  unfoldable pub end_green : Street → Street
  end_green s =
      let a = s.unit.asc in
      let at = a.state_until in
      let ph = phase_at a.idx in
      let (u, d) = draw N s.demand in
      let reason =
        if N.lt u (max_out_probability s.demand at ph a.green_count) then max_out else gap_out in
      record {
        demand = d;
        unit = emit_phase ph.number yellow reason at (record s.unit {
          asc = record a {
            green_count = 0;
            state = yellow;
            state_until = at + yellow_sec * second;
          };
        });
      }

  unfoldable pub advance_at : Light → Street → Street
  unfolding end_green end_yellow end_red
  advance_at green s = end_green s
  advance_at yellow s = record s { unit = end_yellow s.unit }
  advance_at red s = record s { unit = end_red s.unit }
  advance_at unlit s = s

  abbrev pub advance_state : Street → Street
  advance_state s = advance_at s.unit.asc.state s

  -- `for !now.Before(a.stateUntil) { a.advanceState(em) }`, on fuel
  unfoldable pub catch_up : ℕ → ℕ → Street → Street
  catch_up zero now s = s
  catch_up (suc fuel) now s = elim (ltb now s.unit.asc.state_until) [
    | true ↦ s
    | false ↦ catch_up fuel now (advance_state s)
  ]

  -- The arrival loop, on fuel: `next` is `a.nextArrival`.
  unfoldable pub arrivals : ℕ → ℕ → ℕ → Street → ℕ × Street
  arrivals zero now next s = (next, s)
  arrivals (suc fuel) now next s = elim (ltb now next) [
    | true ↦ (next, s)
    | false ↦
        arrivals fuel now (next + (next_headway N s.demand next).0)
          (record { demand = (next_headway N s.demand next).1; unit = arrive next s.unit })
  ]

  -- The first arrival, drawn when there is none yet.
  unfoldable pub first_arrival : Option ℕ → ℕ → Demand N → ℕ × Demand N
  first_arrival (some next) now d = (next, d)
  first_arrival none now d = let (h, d') = next_headway N d now in (now + h, d')

  unfoldable pub fire_arrivals : ℕ → Street → Street
  fire_arrivals now s =
      let (first, d) = first_arrival s.unit.asc.next_arrival now s.demand in
      let (next, s') = arrivals (now + 1 - first) now first (record s { demand = d }) in
      let u = expire now (N.visit s'.unit.asc.pending_off) s'.unit in
      record s' { unit = record u { asc = record u.asc { next_arrival = some next } } }

  -- The part of `Tick` before the phases.
  unfoldable pub sense : ℕ → Street → Street
  sense now s =
      let u = if s.unit.asc.started then s.unit else start now s.unit in
      let s' = fire_arrivals now (record s { unit = fire_faults now u }) in
      record s' { unit = fire_status now s'.unit }

  unfoldable pub cycle : ℕ → Street → Street
  cycle now s =
      let s' = record s { unit = record s.unit { asc = settle_flash now s.unit.asc } } in
      if flashing s.unit.asc then s' else catch_up (now + 1 - s'.unit.asc.state_until) now s'

  unfoldable pub tick : ℕ → Street → Street
  tick now s = cycle now (sense now s)
