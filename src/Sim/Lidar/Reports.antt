-- ===== src/Sim/Lidar/Reports.antt =====
-- The reports of internal/sim/lidar.go, and that a tick keeps the incidents.
use vikasa_demo.Base.{
  ℕ, ◌+◌, ◌≡◌, refl, ◌∙◌, String, Bool, List, [], ◌∷◌, arith, if-cases, every_inv, Dict,
}
use vikasa_demo.Sim.Runtime.{Runtime}
use vikasa_demo.Sim.Demand.{Demand}
use vikasa_demo.Sim.Perception.{IncidentEvent}
use vikasa_demo.Sim.Lidar.{
  lidar_interval_period, Scan, fire_incident, send_incidents, fire_incident_events, emit_interval,
  fire_intervals, tick, split_classes,
}

module _ (N : Runtime) where
  abbrev pub incidents : Scan N → Dict String Bool
  incidents o = o.dev.watch.incidents

  fire_incident-incidents :
      (now : ℕ) (ie : IncidentEvent) (o : Scan N)
      → incidents (fire_incident N now ie o) ≡ incidents o
  unfolding fire_incident
  fire_incident-incidents now ie o =
      if-cases (λ x. incidents x ≡ incidents o) ie.raised _ _ (λ _. refl) (λ _. refl)

  send_incidents-incidents :
      (now : ℕ) (ies : List IncidentEvent) (o : Scan N)
      → incidents (send_incidents N now ies o) ≡ incidents o
  unfolding send_incidents
  send_incidents-incidents now [] o = refl
  send_incidents-incidents now (ie ∷ ies) o =
      send_incidents-incidents now ies (fire_incident N now ie o) ∙ fire_incident-incidents now ie o

  fire_intervals-incidents :
      (d : Demand N) (now : ℕ) (o : Scan N) → incidents (fire_intervals N d now o) ≡ incidents o
  unfolding fire_intervals emit_interval
  fire_intervals-incidents d now o =
      every_inv lidar_interval_period (emit_interval N d) (omega arith)
        (λ (x : Scan N). incidents x ≡ incidents o) (λ at x h. h) now _ o refl

  -- A tick neither raises nor clears an incident.
  pub tick-incidents :
      (d : Demand N) (now : ℕ) (o : Scan N) → incidents (tick N d now o) ≡ incidents o
  unfolding tick fire_incident_events
  tick-incidents d now o =
      fire_intervals-incidents d now _
      ∙ send_incidents-incidents now o.dev.watch.pending_incidents o

  -- Whatever the rounding gives, the cars and the trucks of a report sum up to its total: the
  -- difference does not wrap.
  pub split_classes_total :
      (total : ℕ) → (split_classes N total).0 + (split_classes N total).1 ≡ total
  unfolding split_classes
  split_classes_total total = ground arith
