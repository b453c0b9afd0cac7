-- ===== src/Sim/Asc/Sensors.antt =====
-- internal/sim/asc.go: the part of a tick that does not move the phases, that is the queued faults,
-- the detectors and the status reports.
use vikasa_demo.Base.{
  ℕ, ◌+◌, ◌-◌, ◌%◌, Bool, true, false, ◌&&◌, Option, none, some, List, [], ◌∷◌, ltb, ◌==◌,
  if◌then◌else◌, get, put, remove, or_else, nat_eq, every,
}
use vikasa_demo.Sim.Asc.Plan.{PhaseDef, phase_at, plan_len}
use vikasa_demo.Sim.Asc.State.{
  presence_dur, status_period, Light, green, FaultEvent, controller_fault_event,
  operational_status_report, Asc, flashing, Controller, send, emit_detector,
}

abbrev pub is_green : Light → Bool
is_green green = true
is_green _ = false

unfoldable pub is_active_green : ℕ → Asc → Bool
is_active_green phase a = is_green a.state && ((phase_at a.idx).number == phase)

-- one fault event for each queued transition
unfoldable pub send_faults : ℕ → List FaultEvent → Controller → Controller
send_faults now [] u = u
send_faults now (fe ∷ rest) u = send_faults now rest (
    send now "vikasa.signal-control.controller-fault-event.v1"
      (controller_fault_event fe.id fe.raised (if fe.raised then fe.id else "")) u)

unfoldable pub fire_faults : ℕ → Controller → Controller
fire_faults now u =
    let u' = send_faults now u.asc.pending_faults u in
    record u' { asc = record u'.asc { pending_faults = [] } }

unfoldable pub send_status : ℕ → Controller → Controller
send_status at u =
    send at "vikasa.signal-control.operational-status-report.v1"
      (operational_status_report (if flashing u.asc then "flash" else "coordinated")
        (flashing u.asc))
      u

unfoldable pub fire_status : ℕ → Controller → Controller
fire_status now u =
    let (next, u') =
      every status_period send_status now (or_else u.asc.next_status (now + status_period)) u in
    record u' { asc = record u'.asc { next_status = some next } }

abbrev pub turn_off : PhaseDef → Option ℕ → Controller → Controller
turn_off ph none u = u
turn_off ph (some off) u = emit_detector ph false off u

-- One arrival: a detector that is still on is turned off first.
unfoldable pub arrive : ℕ → Controller → Controller
arrive at u =
    let ph = phase_at (u.asc.arrival_idx % plan_len) in
    let u1 = record u { asc = record u.asc { arrival_idx = u.asc.arrival_idx + 1 } } in
    let u2 = turn_off ph (get ph.channel u1.asc.pending_off) u1 in
    let u3 = emit_detector ph true at u2 in
    let green_count =
      if is_active_green ph.number u3.asc then u3.asc.green_count + 1 else u3.asc.green_count in
    record u3 {
      asc = record u3.asc {
        pending_off = put ph.channel (at + presence_dur) u3.asc.pending_off;
        green_count = green_count;
      };
    }

-- The loop over the pending detector OFFs, in the order in which Go visits them.
unfoldable pub expire : ℕ → List (ℕ × ℕ) → Controller → Controller
expire now [] u = u
expire now ((ch, off) ∷ rest) u = expire now rest (
    if ltb now off
    then u
    else let u' = emit_detector (phase_at (ch - 1)) false off u in
      record u' { asc = record u'.asc { pending_off = remove ch u'.asc.pending_off } })
