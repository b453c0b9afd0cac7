-- ===== src/Sim/Tests/Cabinets.antt =====
-- A cabinet at its first tick.
use vikasa_demo.Base.{◌≡◌, refl, false, some, [], ◌∷◌, ok, get, string_eq, every}
use vikasa_demo.Sim.Emitter.{Emission}
use vikasa_demo.Sim.Runtime.{Runtime}
use vikasa_demo.Sim.Asc.State.{phase_state_change, green, no_reason}
use vikasa_demo.Sim.Dms.{mode_changed, unknown, normal}
use vikasa_demo.Events.Subject.{is_token}
use vikasa_demo.Events.Envelope.{Envelope, new_envelope}
use vikasa_demo.Events.Paper.{paper}
use vikasa_demo.Sink.Shelf.{plain}
use vikasa_demo.Sink.Handlers.{Handler}
use vikasa_demo.Sink.Registry.{registry}
use vikasa_demo.Sim.Cabinet.Runs.{emitted-new_envelope}
use vikasa_demo.Sim.Cabinet.{
  CabinetMsg, asc_msg, dms_msg, ticked, new_devices, tick_all, happen, emitted,
}

-- numbers without a size: no device draws anything
abbrev still : Runtime
still = record {
  F = Unit {0};
  R = Unit {0};
  lit = λ n d. tt;
  pi = tt;
  of_ℕ = λ n. tt;
  trunc = λ x. 1000;
  round = λ x. 1;
  add = λ x y. tt;
  sub = λ x y. tt;
  mul = λ x y. tt;
  div = λ x y. tt;
  sqrt = λ x. tt;
  sin = λ x. tt;
  exp_neg = λ x. tt;
  lt = λ x y. false;
  le = λ x y. false;
  seed = λ n. tt;
  fnv64a = λ s. 17;
  format = λ x. "1.0";
  uniform = λ r. (tt, tt);
  exponential = λ r. (tt, tt);
  visit = λ m. m;
  lt_irrefl = λ a. refl;
  lt_trans = λ a b c h k. h;
}

abbrev first_green : Emission CabinetMsg
first_green = record {
  controller = "asc-1";
  ce_type = "vikasa.signal-control.phase-state-change.v1";
  at = 5;
  msg = asc_msg (phase_state_change 2 green no_reason 1);
}

abbrev startup : Emission CabinetMsg
startup = record {
  controller = "dms-1";
  ce_type = "vikasa.dms.mode-changed.v1";
  at = 5;
  msg = dms_msg (mode_changed (record { prior = unknown; current = normal; reason = "startup" }) 1);
}

first_tick :
    emitted still (ticked 5 ∷ []) (new_devices still 7 tt false) ≡ first_green ∷ startup ∷ []
unfolding emitted happen tick_all new_devices vikasa_demo.Sim.Asc.tick vikasa_demo.Sim.Asc.cycle
    vikasa_demo.Sim.Asc.sense vikasa_demo.Sim.Asc.Sensors.fire_status every
    vikasa_demo.Sim.Asc.fire_arrivals vikasa_demo.Sim.Asc.Sensors.expire
    vikasa_demo.Sim.Asc.arrivals vikasa_demo.Sim.Asc.first_arrival
    vikasa_demo.Sim.Asc.Sensors.fire_faults vikasa_demo.Sim.Asc.Sensors.send_faults
    vikasa_demo.Sim.Asc.State.new_asc vikasa_demo.Sim.Asc.start vikasa_demo.Sim.Asc.State.emit_phase
    vikasa_demo.Sim.Asc.State.send vikasa_demo.Sim.Demand.next_headway vikasa_demo.Sim.Asc.catch_up
    vikasa_demo.Sim.Asc.settle_flash vikasa_demo.Sim.Camera.new_camera vikasa_demo.Sim.Camera.tick
    vikasa_demo.Sim.Lidar.new_lidar vikasa_demo.Sim.Lidar.tick vikasa_demo.Sim.Dms.new_dms
    vikasa_demo.Sim.Dms.tick vikasa_demo.Sim.Dms.start vikasa_demo.Sim.Dms.check_congestion
    vikasa_demo.Sim.Dms.fire_periodic vikasa_demo.Sim.Dms.fire_modes vikasa_demo.Sim.Dms.fire_faults
    vikasa_demo.Sim.Gateway.new_gateway vikasa_demo.Sim.Gateway.tick
    vikasa_demo.Sim.Camera.fire_status vikasa_demo.Sim.Camera.fire_intervals
    vikasa_demo.Sim.Camera.fire_incident_events vikasa_demo.Sim.Camera.send_incidents
    vikasa_demo.Sim.Lidar.fire_intervals vikasa_demo.Sim.Lidar.fire_incident_events
    vikasa_demo.Sim.Lidar.send_incidents vikasa_demo.Sim.Dms.send_modes
    vikasa_demo.Sim.Dms.send_faults vikasa_demo.Sim.Dms.follow_congestion
first_tick = refl

emitted-new_envelope_example :
    (env : Envelope) × (new_envelope paper "mardot" "d1" "cab-i85-001" "dms-1"
        "vikasa.dms.mode-changed.v1" 5 "up"
      ≡ ok env)
    × (env.ce_type ≡ "vikasa.dms.mode-changed.v1")
    × (h : Handler plain) × (get env.ce_type (registry plain) ≡ some h)
unfolding is_token
emitted-new_envelope_example =
    emitted-new_envelope plain still paper "mardot" "d1" "cab-i85-001" 7 tt false (ticked 5 ∷ [])
      (first_green ∷ []) [] startup "up" "up" refl refl refl first_tick refl
