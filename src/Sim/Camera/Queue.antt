-- ===== src/Sim/Camera/Queue.antt =====
-- The queue reports of internal/sim/camera.go.
use mathlib.Core.Path.{subst}
use vikasa_demo.Base.{
  ℕ, ◌≡◌, refl, sym, ap, ◌∙◌, String, Bool, true, false, List, [], ◌∷◌, arith, if-cases,
  is_nonempty, or_else, every_inv, Bool-cases, inl, inr, put, remove, string_eq, Dict,
}
use vikasa_demo.Sim.Camera.Steps.{send_incidents-Keeps}
use vikasa_demo.Sim.Runtime.{Runtime}
use vikasa_demo.Sim.Demand.{Demand, congestion_level}
use vikasa_demo.Sim.Perception.{IncidentEvent, inject_watch, clear_watch}
use vikasa_demo.Sim.Camera.{
  camera_interval_period, camera_status_period, Shot, fire_incident, send_incidents,
  fire_incident_events, emit_interval, emit_queue_state, report_queue, interval, fire_intervals,
  fire_status, tick, new_camera, inject_incident, clear_incident,
}
use vikasa_demo.Sim.Camera.Queueing.{
  IsQueueing, quiet, detected, cleared, healthy, no_queue, congested, queue_seconds-IsDuration,
  reported, replay, replay-append,
}

module _ (N : Runtime) where
  abbrev Tells : Shot N → Dict String Bool → Type 0
  Tells o held = IsQueueing o.sent held o.dev.queue_start o.dev.congestion_queue_start

  -- during a tick
  abbrev IsTold : Shot N → Type 0
  IsTold o = Tells o o.dev.watch.incidents × (o.dev.watch.pending_incidents ≡ [])

  -- between ticks
  abbrev IsDue : Shot N → Type 0
  IsDue o =
      (held : Dict String Bool) × Tells o held
      × (o.dev.watch.incidents ≡ replay o.dev.watch.pending_incidents held)

  send_incidents-Tells :
      (now : ℕ) (ies : List IncidentEvent) (o : Shot N) (held : Dict String Bool)
      → Tells o held
      → Tells (send_incidents N now ies o) (replay ies held)
  unfolding send_incidents fire_incident replay
  send_incidents-Tells now [] o held h = h
  send_incidents-Tells now (ie ∷ ies) o held h = elim (Bool-cases ie.raised) [
    | inl e ↦
        rw (e, send_incidents, replay)
          (send_incidents-Tells now ies _ _ (detected _ ie.id o.dev.zone_id _ h refl))
    | inr e ↦
        rw (e, send_incidents, replay)
          (send_incidents-Tells now ies _ _ (cleared _ ie.id o.dev.zone_id _ h refl))
  ]

  interval-IsTold : (d : Demand N) (at : ℕ) (o : Shot N) → IsTold o → IsTold (interval N d at o)
  unfolding interval emit_interval report_queue emit_queue_state
  interval-IsTold d at o (h, drained) =
      if-cases IsTold (is_nonempty o.dev.watch.incidents) _ _
        (λ e. (reported o.dev.queue_start _ _ _ o.dev.zone_id _ _ h refl e refl refl, drained))
        (λ e.
          if-cases IsTold (N.le (N.lit 35 100) (congestion_level N d at)) _ _
            (λ _. (
              congested _ _ _ o.dev.zone_id (or_else o.dev.congestion_queue_start at) _ _ _ h refl e
                  refl refl refl (queue_seconds-IsDuration at _),
              drained,
            ))
            (λ _. (no_queue _ _ _ h refl e, drained)))

  fire_incident_events-IsTold :
      (now : ℕ) (o : Shot N) → IsDue o → IsTold (fire_incident_events N now o)
  unfolding fire_incident_events
  fire_incident_events-IsTold now o (held, h, e) =
      let ies = o.dev.watch.pending_incidents in
      (
        subst (Tells (send_incidents N now ies o)) (sym (send_incidents-Keeps N now ies o ∙ e))
            (send_incidents-Tells now ies o held h),
        refl,
      )

  tick-IsTold : (d : Demand N) (now : ℕ) (o : Shot N) → IsDue o → IsTold (tick N d now o)
  unfolding tick fire_intervals fire_status
  tick-IsTold d now o h =
      every_inv camera_status_period _ (omega arith) IsTold
        (λ at x (k, drained). (healthy _ x.dev.controller _ k refl, drained)) now _ _
        (every_inv camera_interval_period (interval N d) (omega arith) IsTold (interval-IsTold d)
          now _ _ (fire_incident_events-IsTold now o h))

  -- What happens to a camera, in any order: calls and ticks, each with the demand at that time.
  pub data Call : Type 0 where
    inject clear : String → Demand N → Call
    at_time : ℕ → Demand N → Call

  unfoldable pub perform : Call → Shot N → Shot N
  unfolding tick inject_incident clear_incident
  perform (inject id d) o = record o { dev = (inject_incident N id o.dev d).0 }
  perform (clear id d) o = record o { dev = (clear_incident N id o.dev d).0 }
  perform (at_time now d) o = tick N d now o

  unfoldable pub perform_all : List Call → Shot N → Shot N
  unfolding perform
  perform_all [] o = o
  perform_all (c ∷ cs) o = perform_all cs (perform c o)

  perform-IsDue : (c : Call) (o : Shot N) → IsDue o → IsDue (perform c o)
  unfolding perform replay inject_incident inject_watch clear_incident clear_watch
  perform-IsDue (inject id d) o (held, h, e) = (
    held,
    h,
    ap (put id true) e
        ∙ sym
            (replay-append o.dev.watch.pending_incidents (record { id = id; raised = true }) held),
  )
  perform-IsDue (clear id d) o (held, h, e) = (
    held,
    h,
    ap (remove id) e
        ∙ sym
            (replay-append o.dev.watch.pending_incidents (record { id = id; raised = false }) held),
  )
  perform-IsDue (at_time now d) o h =
      let (told, drained) = tick-IsTold d now o h in
      (_, told, sym (ap (λ ies. replay ies (tick N d now o).dev.watch.incidents) drained))

  perform_all-IsDue : (cs : List Call) (o : Shot N) → IsDue o → IsDue (perform_all cs o)
  unfolding perform_all
  perform_all-IsDue [] o h = h
  perform_all-IsDue (c ∷ cs) o h = perform_all-IsDue cs (perform c o) (perform-IsDue c o h)

  -- In whatever order a new camera is ticked and its incidents are raised and cleared, and however the
  -- demand changes, its events agree with one another. Where an incident is held, by the events that
  -- detect and clear incidents, every interval reports a queue that starts where the last one was
  -- detected. Another queue is only reported where none is held, and starts with the first of the
  -- intervals that report it one after the other. The duration is the seconds since the start, 0 before
  -- it, as a uint32. The starts that the camera keeps are those that its events tell.
  pub queue_reports :
      (cs : List Call) (controller : String) (lanes : ℕ)
      → let o = perform_all cs (record { dev = new_camera N controller lanes; sent = [] }) in
        (held : Dict String Bool) × IsQueueing o.sent held o.dev.queue_start
          o.dev.congestion_queue_start
  unfolding new_camera replay
  queue_reports cs controller lanes =
      let (held, h, _) = perform_all-IsDue cs _ ([], quiet, refl) in (held, h)
