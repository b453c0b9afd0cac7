-- ===== src/Sim/Camera.antt =====
-- internal/sim/camera.go. The camera reads the demand that it is given, and changes it as it takes
-- and releases its hold on an incident.
pub mod Steps
pub mod Queue
pub mod Queueing
use vikasa_demo.Base.{
  ℕ, zero, suc, ◌+◌, ◌-◌, ◌*◌, ◌/◌, ◌%◌, ◌^◌, String, Bool, true, false, Option, none, some, List,
  [], ◌∷◌, ◌++◌, if◌then◌else◌, is_nonempty, or_else, str_append, every,
}
use vikasa_demo.Sim.Emitter.{second, u64, Emission, Out, emit}
use vikasa_demo.Sim.Runtime.{Runtime}
use vikasa_demo.Sim.Demand.{Demand, volume_per_hour, speed_kmh, congestion_level}
use vikasa_demo.Sim.Perception.{
  u32, IncidentEvent, Watch, no_incidents, inject_watch, clear_watch, poisson_draw,
}

abbrev pub camera_interval_period : ℕ
camera_interval_period = 5 * second

abbrev pub camera_status_period : ℕ
camera_status_period = 60 * second

pub record TrafficIntervalReportLane : Type 0 where
  pub lane_id : ℕ
  pub volume : ℕ
  pub speed_average_kmh : String
  pub occupancy : String
  pub density : String
  pub flow_rate_vph : ℕ
  pub interval_duration_s : ℕ

-- The messages, without the fields that are constant or repeat the emission's.
pub data CameraMsg : Type 0 where
  zone_incident_detected zone_incident_cleared :
      (incident_id zone_id : String) (seq : ℕ) → CameraMsg
  traffic_interval_report : (lane : List TrafficIntervalReportLane) (seq : ℕ) → CameraMsg
  queue_state_changed :
      (zone_id : String) (queue_duration_s : ℕ) (queue_start : Option ℕ) (seq : ℕ) → CameraMsg
  traffic_sensor_status_report : (name : String) (seq : ℕ) → CameraMsg

-- `at.Sub(start)` in whole seconds, clamped at 0, where Go rounds the seconds to a float64 before it
-- cuts them off. From Go's zero time it is the longest duration.
abbrev pub queue_seconds : ℕ → Option ℕ → ℕ
queue_seconds at none = u32 ((2 ^ 63 - 1) / second)
queue_seconds at (some start) = u32 ((at - start) / second)

module _ (N : Runtime) where
  open N use {F, R, lit, of_ℕ, add, sub, mul, div, lt, le, seed, uniform, fnv64a, format}

  pub record Camera : Type 0 where
    pub controller : String
    pub lanes : ℕ
    pub rng : R
    pub seq : ℕ
    pub zone_id : String
    pub next_interval : Option ℕ
    pub next_status : Option ℕ
    pub watch : Watch
    pub queue_start : Option ℕ
    pub congestion_queue_start : Option ℕ

  unfoldable pub new_camera : String → ℕ → Camera
  new_camera controller lanes = record {
    controller = controller;
    lanes = lanes;
    rng = seed (fnv64a controller);
    seq = 0;
    zone_id = str_append controller "-zone-1";
    next_interval = none;
    next_status = none;
    watch = no_incidents;
    queue_start = none;
    congestion_queue_start = none;
  }

  unfoldable pub inject_incident : String → Camera → Demand N → Camera × Demand N
  unfolding inject_watch
  inject_incident id c d = let (w, d') = inject_watch N id c.watch d in (record c { watch = w }, d')

  unfoldable pub clear_incident : String → Camera → Demand N → Camera × Demand N
  unfolding clear_watch
  clear_incident id c d = let (w, d') = clear_watch N id c.watch d in (record c { watch = w }, d')

  -- The camera in progress, with what it has sent.
  abbrev pub Shot : Type 0
  Shot = Out Camera CameraMsg

  -- an emission whose message takes the next sequence number
  abbrev pub send : ℕ → String → (ℕ → CameraMsg) → Shot → Shot
  send at ce_type msg o =
      let seq = u64 (o.dev.seq + 1) in
      record {
        dev = record o.dev { seq = seq };
        sent =
            emit o.sent
              (record { controller = o.dev.controller; ce_type = ce_type; at = at; msg = msg seq });
      }

  unfoldable pub fire_incident : ℕ → IncidentEvent → Shot → Shot
  fire_incident now ie o =
      if ie.raised
      then send now "vikasa.perception.zone-incident-detected.v1"
          (zone_incident_detected ie.id o.dev.zone_id)
          (record o { dev = record o.dev { queue_start = some now } })
      else send now "vikasa.perception.zone-incident-cleared.v1"
          (zone_incident_cleared ie.id o.dev.zone_id) o

  unfoldable pub send_incidents : ℕ → List IncidentEvent → Shot → Shot
  unfolding fire_incident
  send_incidents now [] o = o
  send_incidents now (ie ∷ rest) o = send_incidents now rest (fire_incident now ie o)

  unfoldable pub fire_incident_events : ℕ → Shot → Shot
  unfolding send_incidents
  fire_incident_events now o =
      let o' = send_incidents now o.dev.watch.pending_incidents o in
      record o' { dev = record o'.dev { watch = record o'.dev.watch { pending_incidents = [] } } }

  unfoldable pub lane_report : Demand N → ℕ → ℕ → ℕ → R → TrafficIntervalReportLane × R
  lane_report d at lanes lane_id rng =
      let lambda = div (div (volume_per_hour N d at) (lit 720 1)) (of_ℕ lanes) in
      let (vol, rng1) = poisson_draw N rng lambda in
      let (u, rng2) = uniform rng1 in
      let drawn = mul (speed_kmh N d at) (add (lit 1 1) (mul (sub u (lit 5 10)) (lit 1 10))) in
      let speed = if lt drawn (lit 1 1) then lit 1 1 else drawn in
      let flow_vph = u32 (vol * 720) in
      let density = div (of_ℕ flow_vph) speed in
      let filled = mul (div density (lit 120 1)) (lit 100 1) in
      let occupancy = if lt (lit 100 1) filled then lit 100 1 else filled in
      (
        record {
          lane_id = lane_id;
          volume = vol;
          speed_average_kmh = format speed;
          occupancy = format occupancy;
          density = format density;
          flow_rate_vph = flow_vph;
          interval_duration_s = 5;
        },
        rng2,
      )

  -- the reports of the lanes from a number on
  unfoldable pub lane_reports : Demand N → ℕ → ℕ → ℕ → ℕ → R → List TrafficIntervalReportLane × R
  unfolding lane_report
  lane_reports d at lanes zero i rng = ([], rng)
  lane_reports d at lanes (suc n) i rng =
      let (ln, rng1) = lane_report d at lanes (i + 1) rng in
      let (lns, rng2) = lane_reports d at lanes n (i + 1) rng1 in (ln ∷ lns, rng2)

  unfoldable pub emit_interval : Demand N → ℕ → Shot → Shot
  unfolding lane_reports
  emit_interval d at o =
      let (lns, rng) = lane_reports d at o.dev.lanes o.dev.lanes 0 o.dev.rng in
      send at "vikasa.traffic-sensor.traffic-interval-report.v1" (traffic_interval_report lns)
        (record o { dev = record o.dev { rng = rng } })

  unfoldable pub emit_queue_state : ℕ → Option ℕ → Shot → Shot
  emit_queue_state at start o =
      send at "vikasa.traffic-sensor.queue-state-changed.v1"
        (queue_state_changed o.dev.zone_id (queue_seconds at start) start) o

  -- The `switch` of fireIntervals: an incident comes before congestion.
  unfoldable pub report_queue : Demand N → ℕ → Shot → Shot
  unfolding emit_queue_state
  report_queue d at o =
      if is_nonempty o.dev.watch.incidents
      then emit_queue_state at o.dev.queue_start
          (record o { dev = record o.dev { congestion_queue_start = none } })
      else if le (lit 35 100) (congestion_level N d at)
      then (let start = or_else o.dev.congestion_queue_start at in
          emit_queue_state at (some start)
            (record o { dev = record o.dev { congestion_queue_start = some start } }))
      else record o { dev = record o.dev { congestion_queue_start = none } }

  unfoldable pub interval : Demand N → ℕ → Shot → Shot
  unfolding emit_interval report_queue
  interval d at o = report_queue d at (emit_interval d at o)

  unfoldable pub fire_intervals : Demand N → ℕ → Shot → Shot
  unfolding interval
  fire_intervals d now o =
      let (next, o') =
        every camera_interval_period (interval d) now
          (or_else o.dev.next_interval (now + camera_interval_period)) o in
      record o' { dev = record o'.dev { next_interval = some next } }

  unfoldable pub fire_status : ℕ → Shot → Shot
  fire_status now o =
      let (next, o') =
        every camera_status_period
          (λ at (s : Shot).
            send at "vikasa.traffic-sensor.traffic-sensor-status-report.v1"
              (traffic_sensor_status_report s.dev.controller) s)
          now (or_else o.dev.next_status (now + camera_status_period)) o in
      record o' { dev = record o'.dev { next_status = some next } }

  unfoldable pub tick : Demand N → ℕ → Shot → Shot
  unfolding fire_incident_events fire_intervals fire_status
  tick d now o = fire_status now (fire_intervals d now (fire_incident_events now o))
