-- ===== src/Sim/Tests/Sensors.antt =====
-- The cameras and the lidar at concrete inputs.
use vikasa_demo.Base.{String, Bool, Dict, suc, ◌*◌, ◌/◌, refl, arith, List, [], ◌∷◌}
use vikasa_demo.Sim.Emitter.{second}
use vikasa_demo.Sim.Runtime.{Runtime}
use vikasa_demo.Sim.Demand.{new_demand, next_headway}
use vikasa_demo.Sim.Asc.State.{new_asc}
use vikasa_demo.Sim.Asc.{Street}
use vikasa_demo.Sim.Asc.Arrivals.{IsSpaced}
use vikasa_demo.Sim.Perception.Poisson.{Falls, at_once, later}
use vikasa_demo.Sim.Tests.{thousandths, demand}
use vikasa_demo.Sim.Camera.{new_camera}
use vikasa_demo.Sim.Camera.Queue as Queue
use vikasa_demo.Sim.Camera.Queueing.{IsQueueing}
use vikasa_demo.Sim.Camera.Queue.{queue_reports}
use vikasa_demo.Sim.Incidents as Incidents
use vikasa_demo.Sim.Incidents.{cam_1, lidar_1, new_sensors, IsCounted, held, incidents-IsCounted}

abbrev day : List (Queue.Call thousandths)
day =
    Queue.at_time (100 * second) demand
    ∷ Queue.inject "inc-1" demand
    ∷ Queue.at_time (112 * second) demand
    ∷ Queue.clear "inc-1" demand
    ∷ Queue.at_time (120 * second) demand
    ∷ []

queue_reports_example :
    let o =
      Queue.perform_all thousandths day
        (record { dev = new_camera thousandths "cam-1" 2; sent = [] }) in
    (held : Dict String Bool) × IsQueueing o.sent held o.dev.queue_start
      o.dev.congestion_queue_start
queue_reports_example = queue_reports thousandths day "cam-1" 2

abbrev calls : List (Incidents.Call thousandths)
calls =
    Incidents.inject cam_1 "inc-1"
    ∷ Incidents.inject lidar_1 "inc-1"
    ∷ Incidents.inject cam_1 "inc-1"
    ∷ Incidents.tick_at (100 * second)
    ∷ Incidents.clear cam_1 "inc-1"
    ∷ []

incidents-IsCounted_example :
    IsCounted thousandths "inc-1"
      (held thousandths "inc-1" demand)
      (Incidents.perform_all thousandths calls (new_sensors thousandths 2 demand))
incidents-IsCounted_example = incidents-IsCounted thousandths "inc-1" calls 2 demand

-- three draws: 0.037, 0.002 and 0
three_draws : Falls thousandths 0 1000 1 3 4
three_draws = later 1000 1 2 4 refl (later 37 2 1 4 refl (at_once 2 3 refl))

-- headways of a nanosecond or more
abbrev spaced_runtime : Runtime
spaced_runtime = record thousandths { trunc = λ x. suc (x / 1000) }

spaced_runtime-IsSpaced : IsSpaced spaced_runtime
unfolding next_headway
spaced_runtime-IsSpaced d t = omega arith

abbrev spaced_street : Street spaced_runtime
spaced_street = record {
  demand = new_demand spaced_runtime 7 900_000;
  unit = record { asc = new_asc "asc-1"; sent = [] };
}
