-- ===== src/Sim/Tests/Signs.antt =====
-- The sign, the gateway and the reversible lane at concrete inputs.
use vikasa_demo.Sim.Tests.{thousandths, demand}
use vikasa_demo.Base.{
  ℕ, ◌+◌, ◌*◌, ◌≤◌, ◌<◌, ◌≡◌, refl, true, false, none, some, List, [], ◌∷◌, map, arith, slots,
}
use vikasa_demo.Sim.Emitter.{second, Out}
use vikasa_demo.Sim.Dms
use vikasa_demo.Sim.Dms.{
  Dms, new_dms, normal, advisory, follow_congestion, clear_advisory, post_advisory,
  check_congestion, fire_periodic, unknown,
}
use vikasa_demo.Sim.Dms.Modes.{Chain, mode_events}
use vikasa_demo.Sim.Dms.History
use vikasa_demo.Sim.Dms.Advisory.{clear_redundant}
use vikasa_demo.Sim.Gateway
use vikasa_demo.Sim.Gateway.{gateway_heartbeat_period, new_gateway, heartbeat}
use vikasa_demo.Sim.Gateway.Cadence.{tick_schedule}
use vikasa_demo.Sim.Reversible.{new_reversible_lane}
use vikasa_demo.Sim.Reversible.Schedule.{IsSchedule, tick_all, tick_all-IsSchedule}

abbrev dms_calls : List (History.Call thousandths)
dms_calls =
    History.post_call
    ∷ History.tick_call (some demand) second
    ∷ History.clear_call
    ∷ History.tick_call (some demand) (150 * second)
    ∷ []

mode_history_example :
    let o =
      History.perform_all thousandths dms_calls (record { dev = new_dms "dms-1"; sent = [] }) in
    (Chain unknown
      (mode_events (Dms.tick thousandths none (300 * second) o).sent)
      (Dms.tick thousandths none (300 * second) o).dev.mode)
    × ((Dms.tick thousandths none (300 * second) o).dev.pending_modes ≡ [])
mode_history_example = History.mode_history thousandths "dms-1" dms_calls none (300 * second)

abbrev idle : Dms
idle = record {
  controller = "dms-1";
  seq = 0;
  mode = normal;
  scripted = false;
  auto_advisory = false;
  started = true;
  next_periodic = 100 * second;
  pending_modes = [];
  pending_faults = [];
}

abbrev scripted_sign : Dms
scripted_sign = record idle { mode = advisory; scripted = true }

abbrev auto_sign : Dms
auto_sign = record idle { mode = advisory; auto_advisory = true }

clear_redundant_example :
    (follow_congestion false (clear_advisory auto_sign)).pending_modes
    ≡ record { prior = advisory; current = normal; reason = "advisory-cleared" }
      ∷ record { prior = normal; current = normal; reason = "congestion cleared" }
      ∷ []
clear_redundant_example = clear_redundant auto_sign refl refl

tick_schedule_example :
    (k : ℕ) × (40 * second < second + gateway_heartbeat_period * (k + 1))
    × (second + gateway_heartbeat_period * k ≤ 40 * second)
    × ((Gateway.tick
          (40 * second)
          (Gateway.tick second (record { dev = new_gateway "gw"; sent = [] }))).sent
        ≡ map
            (heartbeat "gw" second)
            (slots gateway_heartbeat_period k (second + gateway_heartbeat_period)))
tick_schedule_example = tick_schedule "gw" second (40 * second) (omega arith)

abbrev beating : Out Gateway.Gateway Gateway.PollerHeartbeat
beating = record {
  dev = record { controller = "gw"; started_at = some second; next_heartbeat = some (16 * second) };
  sent = [];
}

abbrev lane_times : List ℕ
lane_times = 110 * second ∷ 119 * second ∷ 121 * second ∷ 130 * second ∷ 145 * second ∷ []

tick_all-IsSchedule_example :
    let o =
      tick_all (second ∷ lane_times) (record { dev = new_reversible_lane "rev-1"; sent = [] }) in
    IsSchedule o.sent o.dev.state o.dev.direction o.dev.phase_start
tick_all-IsSchedule_example = tick_all-IsSchedule "rev-1" second lane_times
