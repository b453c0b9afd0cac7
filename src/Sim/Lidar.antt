-- ===== src/Sim/Lidar.antt =====
-- internal/sim/lidar.go. The lidar shares the demand with the camera (Sim/Camera).
pub mod Reports
use vikasa_demo.Base.{
  ℕ, ◌+◌, ◌-◌, ◌*◌, ◌≡◌, arith, String, Bool, true, false, Option, none, some, List, [], ◌∷◌, ltb,
  if◌then◌else◌, or_else, str_append, every,
}
use vikasa_demo.Sim.Emitter.{second, u64, Emission, Out, emit}
use vikasa_demo.Sim.Runtime.{Runtime}
use vikasa_demo.Sim.Demand.{Demand, volume_per_hour, speed_kmh}
use vikasa_demo.Sim.Perception.{
  u32, IncidentEvent, Watch, no_incidents, inject_watch, clear_watch, poisson_draw,
}

abbrev pub lidar_interval_period : ℕ
lidar_interval_period = 5 * second

pub record ClassCount : Type 0 where
  pub class : String
  pub count : ℕ

pub record ZoneIntervalReportZone : Type 0 where
  pub zone_id : String
  pub interval_start : ℕ
  pub interval_duration_s : ℕ
  pub average_speed_kmh : String
  pub class_count : List ClassCount

pub data LidarMsg : Type 0 where
  zone_incident_detected zone_incident_cleared : (incident_id zone_id : String) (seq : ℕ) → LidarMsg
  zone_interval_report : (zone : List ZoneIntervalReportZone) (seq : ℕ) → LidarMsg

module _ (N : Runtime) where
  open N use {F, R, lit, of_ℕ, round, add, sub, mul, div, lt, seed, uniform, fnv64a, format}

  pub record Lidar : Type 0 where
    pub controller : String
    pub rng : R
    pub seq : ℕ
    pub zone_id : String
    pub next_interval : Option ℕ
    pub watch : Watch

  unfoldable pub new_lidar : String → Lidar
  new_lidar controller = record {
    controller = controller;
    rng = seed (fnv64a controller);
    seq = 0;
    zone_id = str_append controller "-zone-1";
    next_interval = none;
    watch = no_incidents;
  }

  unfoldable pub inject_incident : String → Lidar → Demand N → Lidar × Demand N
  unfolding inject_watch
  inject_incident id l d = let (w, d') = inject_watch N id l.watch d in (record l { watch = w }, d')

  unfoldable pub clear_incident : String → Lidar → Demand N → Lidar × Demand N
  unfolding clear_watch
  clear_incident id l d = let (w, d') = clear_watch N id l.watch d in (record l { watch = w }, d')

  -- The lidar in progress, with what it has sent.
  abbrev pub Scan : Type 0
  Scan = Out Lidar LidarMsg

  abbrev pub send : ℕ → String → (ℕ → LidarMsg) → Scan → Scan
  send at ce_type msg o =
      let seq = u64 (o.dev.seq + 1) in
      record {
        dev = record o.dev { seq = seq };
        sent =
            emit o.sent
              (record { controller = o.dev.controller; ce_type = ce_type; at = at; msg = msg seq });
      }

  unfoldable pub fire_incident : ℕ → IncidentEvent → Scan → Scan
  fire_incident now ie o =
      if ie.raised
      then send now "vikasa.perception.zone-incident-detected.v1"
          (zone_incident_detected ie.id o.dev.zone_id) o
      else send now "vikasa.perception.zone-incident-cleared.v1"
          (zone_incident_cleared ie.id o.dev.zone_id) o

  unfoldable pub send_incidents : ℕ → List IncidentEvent → Scan → Scan
  unfolding fire_incident
  send_incidents now [] o = o
  send_incidents now (ie ∷ rest) o = send_incidents now rest (fire_incident now ie o)

  unfoldable pub fire_incident_events : ℕ → Scan → Scan
  unfolding send_incidents
  fire_incident_events now o =
      let o' = send_incidents now o.dev.watch.pending_incidents o in
      record o' { dev = record o'.dev { watch = record o'.dev.watch { pending_incidents = [] } } }

  -- the cars and the trucks of a total, where a tenth are trucks
  unfoldable pub split_classes : ℕ → ℕ × ℕ
  split_classes total =
      let drawn = u32 (round (mul (of_ℕ total) (lit 10 100))) in
      let truck = if ltb total drawn then total else drawn in (total - truck, truck)

  unfoldable pub zone_report : Demand N → ℕ → String → R → ZoneIntervalReportZone × R
  unfolding split_classes
  zone_report d at zone_id rng =
      let lambda = div (volume_per_hour N d at) (lit 720 1) in
      let (base, rng1) = poisson_draw N rng lambda in
      let (u, rng2) = uniform rng1 in
      let spread = mul (of_ℕ base) (add (lit 1 1) (mul (sub u (lit 5 10)) (lit 2 10))) in
      let noisy = if lt spread (lit 0 1) then lit 0 1 else spread in
      let (car, truck) = split_classes (u32 (round noisy)) in
      let (v, rng3) = uniform rng2 in
      let drawn = mul (speed_kmh N d at) (add (lit 1 1) (mul (sub v (lit 5 10)) (lit 1 10))) in
      let speed = if lt drawn (lit 1 1) then lit 1 1 else drawn in
      (
        record {
          zone_id = zone_id;
          interval_start = at - lidar_interval_period;
          interval_duration_s = 5;
          average_speed_kmh = format speed;
          class_count =
              record { class = "car"; count = car }
              ∷ record { class = "truck"; count = truck }
              ∷ [];
        },
        rng3,
      )

  unfoldable pub emit_interval : Demand N → ℕ → Scan → Scan
  unfolding zone_report
  emit_interval d at o =
      let (zone, rng) = zone_report d at o.dev.zone_id o.dev.rng in
      send at "vikasa.perception.zone-interval-report.v1" (zone_interval_report (zone ∷ []))
        (record o { dev = record o.dev { rng = rng } })

  unfoldable pub fire_intervals : Demand N → ℕ → Scan → Scan
  unfolding emit_interval
  fire_intervals d now o =
      let (next, o') =
        every lidar_interval_period (emit_interval d) now
          (or_else o.dev.next_interval (now + lidar_interval_period)) o in
      record o' { dev = record o'.dev { next_interval = some next } }

  unfoldable pub tick : Demand N → ℕ → Scan → Scan
  unfolding fire_incident_events fire_intervals
  tick d now o = fire_intervals d now (fire_incident_events now o)
