-- ===== src/Sim/Tests/Signals.antt =====
-- The signal controller and the traffic at concrete inputs.
use vikasa_demo.Sim.Tests.{thousandths, demand}
use vikasa_demo.Base.{◌*◌, ◌<◌, ◌≡◌, refl, true, false, none, List, [], ◌∷◌, pos}
use vikasa_demo.Sim.Emitter.{second}
use vikasa_demo.Sim.Demand.{Episode, level_at, Demand}
use vikasa_demo.Sim.Asc.State.{red, Asc, new_asc}
use vikasa_demo.Sim.Asc.View.{phase_log}
use vikasa_demo.Sim.Asc.Phases.{IsRing}
use vikasa_demo.Sim.Asc.Ticks.{tick_caught_up}
use vikasa_demo.Sim.Asc.Order
use vikasa_demo.Sim.Asc
use vikasa_demo.Sim.Asc.{Street, state_dur, max_out_probability}

abbrev street : Street thousandths
street = record { demand = demand; unit = record { asc = new_asc "asc-1"; sent = [] } }

abbrev calls : List (Order.Call thousandths)
calls =
    Order.tick_call 1000
    ∷ Order.inject_call "conflict-flash"
    ∷ Order.tick_call (40 * second)
    ∷ Order.clear_call "conflict-flash"
    ∷ Order.tick_call (50 * second)
    ∷ []

phases_in_order_example :
    let s = Asc.tick thousandths (200 * second) (Order.perform_all thousandths calls street) in
    IsRing (phase_log s.unit.sent) s.unit.asc.idx s.unit.asc.state
phases_in_order_example = Order.phases_in_order thousandths "asc-1" demand calls (200 * second)

-- a controller that runs, in the red of its second phase
abbrev running_asc : Asc
running_asc = record {
  controller = "asc-1";
  seq = 12;
  started = true;
  idx = 1;
  state = red;
  state_until = 60 * second;
  green_count = 0;
  cycles = 4;
  was_flashing = false;
  ped_cadence_mult = pos 0;
  next_arrival = none;
  arrival_idx = 0;
  pending_off = [];
  next_status = none;
  faults = [];
  pending_faults = [];
}

abbrev running : Street thousandths
running = record { demand = demand; unit = record { asc = running_asc; sent = [] } }

abbrev in_flash : Street thousandths
in_flash = record running {
  unit = record { asc = record running_asc { faults = ("f", true) ∷ [] }; sent = [] };
}

abbrev out_of_flash : Street thousandths
out_of_flash = record running {
  unit = record { asc = record running_asc { was_flashing = true }; sent = [] };
}

tick_caught_up_example :
    300 * second < (Asc.tick thousandths (300 * second) running).unit.asc.state_until
tick_caught_up_example = tick_caught_up thousandths (300 * second) running refl (λ e. cc) refl

abbrev episode : Episode thousandths
episode = record {
  offset = 1190 * second;
  ramp_up = 30 * second;
  hold = 60 * second;
  ramp_down = 30 * second;
  peak = 700;
}

level_in_hold : level_at thousandths episode (30 * second) ≡ 700
unfolding level_at
level_in_hold = refl

abbrev congested : Demand thousandths
congested = record demand { episodes = episode ∷ [] }
