-- ===== src/Sim/Cabinet/Signals.antt =====
-- What the signal controller of internal/sim/asc.go sends, without its phases.
pub mod Streets
use vikasa_demo.Base.{
  ℕ, zero, suc, ◌+◌, ◌-◌, ◌%◌, ◌*◌, ◌&&◌, not, ◌≡◌, refl, String, Bool, true, false, Option, none,
  some, List, [], ◌∷◌, ltb, Bool-cases, inl, inr, every_inv, arith, if-cases, get, nat_eq, ◌==◌,
  if◌then◌else◌, remove,
}
use vikasa_demo.Sim.Emitter.{second}
use vikasa_demo.Sim.Runtime.{Runtime}
use vikasa_demo.Sim.Asc.Plan.{PhaseDef, phase_at, plan_len}
use vikasa_demo.Sim.Asc.State.{
  Light, unlit, green, yellow, red, Reason, AscMsg, FaultEvent, Asc, Controller, ped_coord_cycles,
  pedestrian_event, coordination_change, no_reason, yellow_sec, all_red_sec, send, emit_phase,
  emit_detector, status_period, cadence, flashing,
}
use vikasa_demo.Sim.Asc.Sensors.{
  send_faults, fire_faults, send_status, fire_status, turn_off, arrive, expire,
}
use vikasa_demo.Sim.Asc.{
  Street, emit_pedestrian_and_coordination, start, count_cycles, end_yellow, end_red, end_green,
  settle_flash, resume_from_flash, advance_at, catch_up, arrivals, first_arrival, fire_arrivals,
  sense, cycle, tick,
}
use vikasa_demo.Sim.Demand.{next_headway}
use vikasa_demo.Sim.Cabinet.Sends.{Sends, Sends-emit}

-- The types that the controller sends are among those of `P`.
pub record CoversSignals (P : String → Type 0) : Type 0 where
  pub phase : P "vikasa.signal-control.phase-state-change.v1"
  pub detector : P "vikasa.signal-control.detector-transition.v1"
  pub status : P "vikasa.signal-control.operational-status-report.v1"
  pub fault : P "vikasa.signal-control.controller-fault-event.v1"
  pub pedestrian : P "vikasa.signal-control.pedestrian-event.v1"
  pub coordination : P "vikasa.signal-control.coordination-change.v1"

module _ (c : String) (P : String → Type 0) (covers : CoversSignals P) where
  abbrev pub SendsIts : Controller → Type 0
  SendsIts u = Sends c P u.asc.controller u.sent

  send-Sends :
      (at : ℕ) (t : String) (msg : ℕ → AscMsg) (u : Controller)
      → P t
      → SendsIts u
      → SendsIts (send at t msg u)
  unfolding send
  send-Sends at t msg u p h = Sends-emit c P u.asc.controller u.sent _ refl p h

  pub emit_phase-Sends :
      (n : ℕ) (l : Light) (r : Reason) (at : ℕ) (u : Controller)
      → SendsIts u
      → SendsIts (emit_phase n l r at u)
  unfolding emit_phase
  emit_phase-Sends n l r at u h = send-Sends at _ _ u covers.phase h

  emit_detector-Sends :
      (ph : PhaseDef) (is_on : Bool) (at : ℕ) (u : Controller)
      → SendsIts u
      → SendsIts (emit_detector ph is_on at u)
  unfolding emit_detector
  emit_detector-Sends ph is_on at u h = send-Sends at _ _ u covers.detector h

  pub send_faults-Sends :
      (now : ℕ) (fs : List FaultEvent) (u : Controller)
      → SendsIts u
      → SendsIts (send_faults now fs u)
  unfolding send_faults
  send_faults-Sends now [] u h = h
  send_faults-Sends now (f ∷ fs) u h =
      send_faults-Sends now fs _ (send-Sends now _ _ u covers.fault h)

  pub fire_status-Sends : (now : ℕ) (u : Controller) → SendsIts u → SendsIts (fire_status now u)
  unfolding fire_status send_status
  fire_status-Sends now u h =
      every_inv status_period send_status (omega arith) SendsIts
        (λ at v k. send-Sends at _ _ v covers.status k) now _ u h

  turn_off-Sends :
      (ph : PhaseDef) (off : Option ℕ) (u : Controller) → SendsIts u → SendsIts (turn_off ph off u)
  turn_off-Sends ph none u h = h
  turn_off-Sends ph (some off) u h = emit_detector-Sends ph false off u h

  pub arrive-Sends : (at : ℕ) (u : Controller) → SendsIts u → SendsIts (arrive at u)
  unfolding arrive
  arrive-Sends at u h =
      let ph = phase_at (u.asc.arrival_idx % plan_len) in
      let u1 = record u { asc = record u.asc { arrival_idx = u.asc.arrival_idx + 1 } } in
      let off = get ph.channel u1.asc.pending_off in
      emit_detector-Sends ph true at (turn_off ph off u1) (turn_off-Sends ph off u1 h)

  pub expire-Sends :
      (now : ℕ) (offs : List (ℕ × ℕ)) (u : Controller) → SendsIts u → SendsIts (expire now offs u)
  unfolding expire
  expire-Sends now [] u h = h
  expire-Sends now ((ch, off) ∷ rest) u h =
      let u' = emit_detector (phase_at (ch - 1)) false off u in
      let u'' = record u' { asc = record u'.asc { pending_off = remove ch u'.asc.pending_off } } in
      expire-Sends now rest (if ltb now off then u else u'') (
        if-cases SendsIts (ltb now off) u u'' (λ _. h)
          (λ _. emit_detector-Sends (phase_at (ch - 1)) false off u h))

  pedestrian-Sends :
      (at : ℕ) (u : Controller) → SendsIts u → SendsIts (emit_pedestrian_and_coordination at u)
  unfolding emit_pedestrian_and_coordination
  pedestrian-Sends at u h =
      let ph = phase_at 0 in
      let msg = pedestrian_event ph.number ph.channel in
      let t : String = "vikasa.signal-control.pedestrian-event.v1" in
      send-Sends at _ (coordination_change ph.number ph.green_sec ph.green_sec) (send at t msg u)
        covers.coordination (send-Sends at t msg u covers.pedestrian h)

  count_cycles-Sends : (at n : ℕ) (u : Controller) → SendsIts u → SendsIts (count_cycles at n u)
  unfolding count_cycles
  count_cycles-Sends at zero u h = h
  count_cycles-Sends at (suc n) u h =
      let u' = record u { asc = record u.asc { cycles = u.asc.cycles + 1 } } in
      let due = (u'.asc.cycles % ped_coord_cycles) == 0 in
      let u'' = emit_pedestrian_and_coordination at u' in
      count_cycles-Sends at n (if due then u'' else u')
        (if-cases SendsIts due u'' u' (λ _. pedestrian-Sends at u' h) (λ _. h))

  pub end_red-Sends : (u : Controller) → SendsIts u → SendsIts (end_red u)
  unfolding end_red
  end_red-Sends u h =
      let at = u.asc.state_until in
      let idx = (u.asc.idx + 1) % plan_len in
      let u1 = record u { asc = record u.asc { idx = idx } } in
      let counted = count_cycles at (cadence u.asc.ped_cadence_mult) u1 in
      let u2 = if idx == 0 then counted else u1 in
      let ph = phase_at idx in
      emit_phase-Sends ph.number green no_reason at
        (record u2 {
          asc = record u2.asc { state = green; state_until = at + ph.green_sec * second };
        })
        (if-cases SendsIts (idx == 0) counted u1
          (λ _. count_cycles-Sends at (cadence u.asc.ped_cadence_mult) u1 h) (λ _. h))

  pub settle_flash-Sends :
      (now : ℕ) (u : Controller) → SendsIts u → SendsIts (record u { asc = settle_flash now u.asc })
  unfolding settle_flash resume_from_flash
  settle_flash-Sends now u h = (
    if-cases (λ (a : Asc). a.controller ≡ c) (u.asc.was_flashing && not (flashing u.asc))
        (resume_from_flash now u.asc) u.asc (λ _. h.0) (λ _. h.0),
    h.1,
  )

  pub start-Sends : (now : ℕ) (u : Controller) → SendsIts u → SendsIts (start now u)
  unfolding start
  start-Sends now u h =
      let ph = phase_at 0 in
      emit_phase-Sends ph.number green no_reason now
        (record u {
          asc = record u.asc {
            started = true;
            idx = 0;
            state = green;
            state_until = now + ph.green_sec * second;
          };
        })
        h
