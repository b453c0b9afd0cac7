-- ===== src/Sim/Cabinet/Sensors.antt =====
-- What the cameras and the lidar of internal/sim send.
use vikasa_demo.Base.{
  ℕ, refl, String, List, [], ◌∷◌, Option, none, some, every_inv, arith, if-cases, or_else,
  is_nonempty,
}
use vikasa_demo.Sim.Runtime.{Runtime}
use vikasa_demo.Sim.Demand.{Demand, congestion_level}
use vikasa_demo.Sim.Perception.{IncidentEvent}
use vikasa_demo.Sim.Camera as Camera
use vikasa_demo.Sim.Lidar as Lidar
use vikasa_demo.Sim.Cabinet.Sends.{Sends, Sends-emit}

module _ (c : String) (P : String → Type 0)
    (detected : P "vikasa.perception.zone-incident-detected.v1")
    (cleared : P "vikasa.perception.zone-incident-cleared.v1") (N : Runtime) where
  module _ (traffic : P "vikasa.traffic-sensor.traffic-interval-report.v1")
      (queue : P "vikasa.traffic-sensor.queue-state-changed.v1")
      (status : P "vikasa.traffic-sensor.traffic-sensor-status-report.v1") where
    abbrev ShotSends : Camera.Shot N → Type 0
    ShotSends o = Sends c P o.dev.controller o.sent

    shot-Sends :
        (at : ℕ) (t : String) (msg : ℕ → Camera.CameraMsg) (o : Camera.Shot N)
        → P t
        → ShotSends o
        → ShotSends (Camera.send N at t msg o)
    shot-Sends at t msg o p h = Sends-emit c P o.dev.controller o.sent _ refl p h

    camera_incidents-Sends :
        (now : ℕ) (es : List IncidentEvent) (o : Camera.Shot N)
        → ShotSends o
        → ShotSends (Camera.send_incidents N now es o)
    unfolding vikasa_demo.Sim.Camera.send_incidents vikasa_demo.Sim.Camera.fire_incident
    camera_incidents-Sends now [] o h = h
    camera_incidents-Sends now (e ∷ es) o h =
        camera_incidents-Sends now es (Camera.fire_incident N now e o) (
          if-cases ShotSends e.raised _ _
            (λ _.
              shot-Sends now _ (Camera.zone_incident_detected e.id o.dev.zone_id)
                (record o { dev = record o.dev { queue_start = some now } }) detected h)
            (λ _. shot-Sends now _ (Camera.zone_incident_cleared e.id o.dev.zone_id) o cleared h))

    queue-Sends :
        (at : ℕ) (start : Option ℕ) (o : Camera.Shot N)
        → ShotSends o
        → ShotSends (Camera.emit_queue_state N at start o)
    unfolding vikasa_demo.Sim.Camera.emit_queue_state
    queue-Sends at start o h =
        shot-Sends at _
          (Camera.queue_state_changed o.dev.zone_id (Camera.queue_seconds at start) start) o queue h

    report_queue-Sends :
        (d : Demand N) (at : ℕ) (o : Camera.Shot N)
        → ShotSends o
        → ShotSends (Camera.report_queue N d at o)
    unfolding vikasa_demo.Sim.Camera.report_queue
    report_queue-Sends d at o h =
        if-cases ShotSends (is_nonempty o.dev.watch.incidents) _ _
          (λ _.
            queue-Sends at o.dev.queue_start
              (record o { dev = record o.dev { congestion_queue_start = none } }) h)
          (λ _.
            if-cases ShotSends (N.le (N.lit 35 100) (congestion_level N d at)) _ _
              (λ _.
                let start = or_else o.dev.congestion_queue_start at in
                queue-Sends at (some start)
                  (record o { dev = record o.dev { congestion_queue_start = some start } }) h)
              (λ _. h))

    interval-Sends :
        (d : Demand N) (at : ℕ) (o : Camera.Shot N)
        → ShotSends o
        → ShotSends (Camera.interval N d at o)
    unfolding vikasa_demo.Sim.Camera.interval vikasa_demo.Sim.Camera.emit_interval
    interval-Sends d at o h =
        let r = Camera.lane_reports N d at o.dev.lanes o.dev.lanes 0 o.dev.rng in
        report_queue-Sends d at (Camera.emit_interval N d at o) (
          shot-Sends at _ (Camera.traffic_interval_report r.0)
            (record o { dev = record o.dev { rng = r.1 } }) traffic h)

    pub camera-Sends :
        (d : Demand N) (now : ℕ) (o : Camera.Shot N)
        → ShotSends o
        → ShotSends (Camera.tick N d now o)
    unfolding vikasa_demo.Sim.Camera.tick vikasa_demo.Sim.Camera.fire_status
        vikasa_demo.Sim.Camera.fire_intervals vikasa_demo.Sim.Camera.fire_incident_events
    camera-Sends d now o h =
        every_inv Camera.camera_status_period _ (omega arith) ShotSends
          (λ at o' k.
            shot-Sends at _ (Camera.traffic_sensor_status_report o'.dev.controller) o' status k)
          now _ _
          (every_inv Camera.camera_interval_period (Camera.interval N d) (omega arith) ShotSends
            (λ at o' k. interval-Sends d at o' k) now _ _
            (camera_incidents-Sends now o.dev.watch.pending_incidents o h))

  module _ (zone : P "vikasa.perception.zone-interval-report.v1") where
    abbrev ScanSends : Lidar.Scan N → Type 0
    ScanSends o = Sends c P o.dev.controller o.sent

    scan-Sends :
        (at : ℕ) (t : String) (msg : ℕ → Lidar.LidarMsg) (o : Lidar.Scan N)
        → P t
        → ScanSends o
        → ScanSends (Lidar.send N at t msg o)
    scan-Sends at t msg o p h = Sends-emit c P o.dev.controller o.sent _ refl p h

    lidar_incidents-Sends :
        (now : ℕ) (es : List IncidentEvent) (o : Lidar.Scan N)
        → ScanSends o
        → ScanSends (Lidar.send_incidents N now es o)
    unfolding vikasa_demo.Sim.Lidar.send_incidents vikasa_demo.Sim.Lidar.fire_incident
    lidar_incidents-Sends now [] o h = h
    lidar_incidents-Sends now (e ∷ es) o h =
        lidar_incidents-Sends now es (Lidar.fire_incident N now e o) (
          if-cases ScanSends e.raised _ _
            (λ _. scan-Sends now _ (Lidar.zone_incident_detected e.id o.dev.zone_id) o detected h)
            (λ _. scan-Sends now _ (Lidar.zone_incident_cleared e.id o.dev.zone_id) o cleared h))

    scan_interval-Sends :
        (d : Demand N) (at : ℕ) (o : Lidar.Scan N)
        → ScanSends o
        → ScanSends (Lidar.emit_interval N d at o)
    unfolding vikasa_demo.Sim.Lidar.emit_interval
    scan_interval-Sends d at o h =
        let r = Lidar.zone_report N d at o.dev.zone_id o.dev.rng in
        scan-Sends at _ (Lidar.zone_interval_report (r.0 ∷ []))
          (record o { dev = record o.dev { rng = r.1 } }) zone h

    pub lidar-Sends :
        (d : Demand N) (now : ℕ) (o : Lidar.Scan N) → ScanSends o → ScanSends (Lidar.tick N d now o)
    unfolding vikasa_demo.Sim.Lidar.tick vikasa_demo.Sim.Lidar.fire_intervals
        vikasa_demo.Sim.Lidar.fire_incident_events
    lidar-Sends d now o h =
        every_inv Lidar.lidar_interval_period (Lidar.emit_interval N d) (omega arith) ScanSends
          (λ at o' k. scan_interval-Sends d at o' k) now _ _
          (lidar_incidents-Sends now o.dev.watch.pending_incidents o h)
