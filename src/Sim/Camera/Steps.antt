-- ===== src/Sim/Camera/Steps.antt =====
-- A tick of internal/sim/camera.go keeps the incidents of the camera.
use vikasa_demo.Base.{
  ℕ, ◌≡◌, refl, ◌∙◌, String, Bool, List, [], ◌∷◌, arith, if-cases, is_nonempty, every_inv,
  string_eq, Dict,
}
use vikasa_demo.Sim.Runtime.{Runtime}
use vikasa_demo.Sim.Demand.{Demand, congestion_level}
use vikasa_demo.Sim.Perception.{IncidentEvent}
use vikasa_demo.Sim.Camera.{
  camera_interval_period, camera_status_period, Shot, fire_incident, send_incidents,
  fire_incident_events, emit_interval, emit_queue_state, report_queue, interval, fire_intervals,
  fire_status, tick,
}

module _ (N : Runtime) where
  abbrev pub incidents : Shot N → Dict String Bool
  incidents o = o.dev.watch.incidents

  -- A step that keeps the incidents of the camera.
  abbrev pub Keeps : (Shot N → Shot N) → Type 0
  Keeps f = (o : Shot N) → incidents (f o) ≡ incidents o

  fire_incident-Keeps : (now : ℕ) (ie : IncidentEvent) → Keeps (fire_incident N now ie)
  unfolding fire_incident
  fire_incident-Keeps now ie o =
      if-cases (λ x. incidents x ≡ incidents o) ie.raised _ _ (λ _. refl) (λ _. refl)

  pub send_incidents-Keeps : (now : ℕ) (ies : List IncidentEvent) → Keeps (send_incidents N now ies)
  unfolding send_incidents
  send_incidents-Keeps now [] o = refl
  send_incidents-Keeps now (ie ∷ ies) o =
      send_incidents-Keeps now ies (fire_incident N now ie o) ∙ fire_incident-Keeps now ie o

  report_queue-Keeps : (d : Demand N) (at : ℕ) → Keeps (report_queue N d at)
  unfolding report_queue emit_queue_state
  report_queue-Keeps d at o =
      if-cases (λ x. incidents x ≡ incidents o) (is_nonempty o.dev.watch.incidents) _ _ (λ _. refl)
        (λ _.
          if-cases (λ x. incidents x ≡ incidents o) (N.le (N.lit 35 100) (congestion_level N d at))
            _ _ (λ _. refl) (λ _. refl))

  interval-Keeps : (d : Demand N) (at : ℕ) → Keeps (interval N d at)
  unfolding interval emit_interval
  interval-Keeps d at o = report_queue-Keeps d at (emit_interval N d at o)

  fire_intervals-Keeps : (d : Demand N) (now : ℕ) → Keeps (fire_intervals N d now)
  unfolding fire_intervals
  fire_intervals-Keeps d now o =
      every_inv camera_interval_period (interval N d) (omega arith)
        (λ (x : Shot N). incidents x ≡ incidents o) (λ at x h. interval-Keeps d at x ∙ h) now _ o
        refl

  fire_status-Keeps : (now : ℕ) → Keeps (fire_status N now)
  unfolding fire_status
  fire_status-Keeps now o =
      every_inv camera_status_period _ (omega arith) (λ (x : Shot N). incidents x ≡ incidents o)
        (λ at x h. h) now _ o refl

  -- A tick neither raises nor clears an incident.
  pub tick-Keeps : (d : Demand N) (now : ℕ) → Keeps (tick N d now)
  unfolding tick fire_incident_events
  tick-Keeps d now o =
      fire_status-Keeps now _
      ∙ fire_intervals-Keeps d now _
      ∙ send_incidents-Keeps now o.dev.watch.pending_incidents o
