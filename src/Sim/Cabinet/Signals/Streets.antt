-- ===== src/Sim/Cabinet/Signals/Streets.antt =====
-- What the signal controller of internal/sim/asc.go sends in a tick.
use vikasa_demo.Base.{
  ℕ, zero, suc, ◌+◌, ◌-◌, ◌*◌, String, ltb, Bool-cases, inl, inr, if-cases, nat_eq, if◌then◌else◌,
}
use vikasa_demo.Sim.Emitter.{second}
use vikasa_demo.Sim.Runtime.{Runtime}
use vikasa_demo.Sim.Asc.Plan.{phase_at}
use vikasa_demo.Sim.Asc.State.{
  Light, unlit, green, yellow, red, no_reason, yellow_sec, all_red_sec, flashing,
}
use vikasa_demo.Sim.Asc.Sensors.{fire_faults, arrive}
use vikasa_demo.Sim.Asc.{
  Street, start, end_yellow, end_green, settle_flash, advance_at, catch_up, arrivals, first_arrival,
  fire_arrivals, sense, cycle, tick,
}
use vikasa_demo.Sim.Demand.{next_headway}
use vikasa_demo.Sim.Cabinet.Signals.{
  CoversSignals, SendsIts, emit_phase-Sends, send_faults-Sends, fire_status-Sends, arrive-Sends,
  expire-Sends, end_red-Sends, settle_flash-Sends, start-Sends,
}

module _ (c : String) (P : String → Type 0) (covers : CoversSignals P) where
  module _ (N : Runtime) where
    advance_at-Sends :
        (l : Light) (s : Street N)
        → SendsIts c P covers s.unit
        → SendsIts c P covers (advance_at N l s).unit
    unfolding advance_at end_green end_yellow
    advance_at-Sends green s h =
        let a = s.unit.asc in
        let at = a.state_until in
        emit_phase-Sends c P covers (phase_at a.idx).number yellow _ at
          (record s.unit {
            asc = record a {
              green_count = 0;
              state = yellow;
              state_until = at + yellow_sec * second;
            };
          })
          h
    advance_at-Sends yellow s h =
        let a = s.unit.asc in
        let at = a.state_until in
        emit_phase-Sends c P covers (phase_at a.idx).number red no_reason at
          (record s.unit {
            asc = record a { state = red; state_until = at + all_red_sec * second };
          })
          h
    advance_at-Sends red s h = end_red-Sends c P covers s.unit h
    advance_at-Sends unlit s h = h

    catch_up-Sends :
        (fuel now : ℕ) (s : Street N)
        → SendsIts c P covers s.unit
        → SendsIts c P covers (catch_up N fuel now s).unit
    unfolding catch_up
    catch_up-Sends zero now s h = h
    catch_up-Sends (suc fuel) now s h = elim (Bool-cases (ltb now s.unit.asc.state_until)) [
      | inl e ↦ rw (e, catch_up) h
      | inr e ↦
          rw (e, catch_up)
            (catch_up-Sends fuel now (advance_at N s.unit.asc.state s)
              (advance_at-Sends s.unit.asc.state s h))
    ]

    arrivals-Sends :
        (fuel now next : ℕ) (s : Street N)
        → SendsIts c P covers s.unit
        → SendsIts c P covers (arrivals N fuel now next s).1.unit
    unfolding arrivals
    arrivals-Sends zero now next s h = h
    arrivals-Sends (suc fuel) now next s h = elim (Bool-cases (ltb now next)) [
      | inl e ↦ rw (e, arrivals) h
      | inr e ↦
          rw (e, arrivals)
            (arrivals-Sends fuel now (next + (next_headway N s.demand next).0)
              (record { demand = (next_headway N s.demand next).1; unit = arrive next s.unit })
              (arrive-Sends c P covers next s.unit h))
    ]

    fire_arrivals-Sends :
        (now : ℕ) (s : Street N)
        → SendsIts c P covers s.unit
        → SendsIts c P covers (fire_arrivals N now s).unit
    unfolding fire_arrivals
    fire_arrivals-Sends now s h =
        let f = first_arrival N s.unit.asc.next_arrival now s.demand in
        let r = arrivals N (now + 1 - f.0) now f.0 (record s { demand = f.1 }) in
        expire-Sends c P covers now (N.visit r.1.unit.asc.pending_off) r.1.unit
          (arrivals-Sends (now + 1 - f.0) now f.0 (record s { demand = f.1 }) h)

    sense-Sends :
        (now : ℕ) (s : Street N)
        → SendsIts c P covers s.unit
        → SendsIts c P covers (sense N now s).unit
    unfolding sense fire_faults
    sense-Sends now s h =
        let u = if s.unit.asc.started then s.unit else start now s.unit in
        let s1 = record s { unit = fire_faults now u } in
        fire_status-Sends c P covers now (fire_arrivals N now s1).unit (
          fire_arrivals-Sends now s1 (
            send_faults-Sends c P covers now u.asc.pending_faults u (
              if-cases (SendsIts c P covers) s.unit.asc.started s.unit (start now s.unit) (λ _. h)
                (λ _. start-Sends c P covers now s.unit h))))

    pub tick-Sends :
        (now : ℕ) (s : Street N)
        → SendsIts c P covers s.unit
        → SendsIts c P covers (tick N now s).unit
    unfolding tick cycle
    tick-Sends now s h =
        let s1 = sense N now s in
        let s2 = record s1 { unit = record s1.unit { asc = settle_flash now s1.unit.asc } } in
        let fuel = now + 1 - s2.unit.asc.state_until in
        let k = settle_flash-Sends c P covers now s1.unit (sense-Sends now s h) in
        if-cases (λ (t : Street N). SendsIts c P covers t.unit) (flashing s1.unit.asc) s2
          (catch_up N fuel now s2) (λ _. k) (λ _. catch_up-Sends fuel now s2 k)
