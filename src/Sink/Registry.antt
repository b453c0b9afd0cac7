-- ===== src/Sink/Registry.antt =====
-- The registry of internal/sink/handlers.go, in the order of its init function.
use vikasa_demo.Base.{String, [], ◌∷◌, ◌++◌, ok, map, Dict}
use vikasa_demo.Sink.Decoder.{Decoder}
use vikasa_demo.Sink.Handlers.{
  cols, text, real, Handler, prefix, handler, one, u8, str, flag, lane_row, zone_rows,
}

module _ (D : Decoder) where
  abbrev pub signal_handlers : Dict String (Handler D)
  signal_handlers =
      (
        "vikasa.signal-control.phase-state-change.v1",
        handler D "phase_state_change"
            ("phase_number" ∷ "to_state" ∷ "termination_reason" ∷ "hold_active" ∷ "call_registered"
              ∷ [])
            "signalcontrolv1.PhaseStateChange"
            (one D (λ m.
              u8 D "phase_number" m
              ∷ str D "to_state" m
              ∷ str D "termination_reason" m
              ∷ flag D "hold_active" m
              ∷ flag D "call_registered" m
              ∷ [])),
      )
      ∷ (
        "vikasa.signal-control.detector-transition.v1",
        handler D "detector_transition"
            ("channel" ∷ "transition" ∷ "lane" ∷ "approach" ∷ "phase_served" ∷ [])
            "signalcontrolv1.DetectorTransition"
            (one D (λ m.
              u8 D "channel" m
              ∷ str D "transition" m
              ∷ str D "lane" m
              ∷ str D "approach" m
              ∷ u8 D "phase_served" m
              ∷ [])),
      )
      ∷ (
        "vikasa.signal-control.pedestrian-event.v1",
        handler D "pedestrian_event" ("phase_number" ∷ "event_kind" ∷ [])
            "signalcontrolv1.PedestrianEvent"
            (one D (λ m. u8 D "phase_number" m ∷ str D "event" m ∷ [])),
      )
      ∷ (
        "vikasa.signal-control.coordination-change.v1",
        handler D "coordination_change" ("plan_id" ∷ "state" ∷ [])
            "signalcontrolv1.CoordinationChange"
            (one D
              (λ m. text (D.format_int (D.int_field "new_value" m)) ∷ str D "change_kind" m ∷ [])),
      )
      ∷ (
        "vikasa.signal-control.preemption-event.v1",
        handler D "preemption_event" ("preempt_number" ∷ "state" ∷ [])
            "signalcontrolv1.PreemptionEvent"
            (one D (λ m. u8 D "preempt_number" m ∷ str D "stage" m ∷ [])),
      )
      ∷ (
        "vikasa.signal-control.controller-fault-event.v1",
        handler D "controller_fault_event" ("fault_id" ∷ "raised" ∷ "severity" ∷ [])
            "signalcontrolv1.ControllerFaultEvent"
            (one D (λ m. str D "fault_id" m ∷ flag D "raised" m ∷ str D "severity" m ∷ [])),
      )
      ∷ (
        "vikasa.signal-control.operational-status-report.v1",
        handler D "operational_status" ("mode" ∷ "active_plan_id" ∷ [])
            "signalcontrolv1.OperationalStatusReport" (one D (λ m. str D "mode" m ∷ text "" ∷ [])),
      )
      ∷ []

  abbrev pub sensor_handlers : Dict String (Handler D)
  sensor_handlers =
      (
        "vikasa.traffic-sensor.traffic-interval-report.v1",
        handler D "traffic_sensor_lane_interval"
            ("lane_id" ∷ "interval_s" ∷ "volume" ∷ "speed_kmh" ∷ "occupancy" ∷ "density" ∷ [])
            "trafficsensorv1.TrafficIntervalReport" (λ m. map (lane_row D) (D.list_field "lane" m)),
      )
      ∷ (
        "vikasa.traffic-sensor.traffic-sensor-status-report.v1",
        handler D "traffic_sensor_status" ("status" ∷ [])
            "trafficsensorv1.TrafficSensorStatusReport"
            (one D (λ m. str D "operational_status" m ∷ [])),
      )
      ∷ (
        "vikasa.traffic-sensor.queue-state-changed.v1",
        handler D "queue_state" ("zone_id" ∷ "queued" ∷ "queue_length_m" ∷ [])
            "trafficsensorv1.QueueStateChanged"
            (one D (λ m. str D "zone_id" m ∷ flag D "queueing" m ∷ real D.zero_float ∷ [])),
      )
      ∷ (
        "vikasa.perception.zone-interval-report.v1",
        handler D "perception_zone_interval" ("zone_id" ∷ "vehicle_class" ∷ "count" ∷ [])
            "perceptionv1.ZoneIntervalReport" (λ m. zone_rows D (D.list_field "zone" m)),
      )
      ∷ (
        "vikasa.perception.zone-incident-detected.v1",
        handler D "perception_incident" ("incident_id" ∷ "zone_id" ∷ "incident_type" ∷ "state" ∷ [])
            "perceptionv1.ZoneIncidentDetected"
            (one D (λ m.
              str D "incident_id" m ∷ str D "zone_id" m ∷ str D "type" m ∷ text "detected" ∷ [])),
      )
      ∷ (
        "vikasa.perception.zone-incident-cleared.v1",
        handler D "perception_incident" ("incident_id" ∷ "zone_id" ∷ "incident_type" ∷ "state" ∷ [])
            "perceptionv1.ZoneIncidentCleared"
            (one D
              (λ m. str D "incident_id" m ∷ str D "zone_id" m ∷ text "" ∷ text "cleared" ∷ [])),
      )
      ∷ []

  abbrev pub sign_handlers : Dict String (Handler D)
  sign_handlers =
      (
        "vikasa.dms.mode-changed.v1",
        handler D "dms_event" ("event_kind" ∷ "mode" ∷ "fault_id" ∷ []) "commonv1.ModeChanged"
            (one D (λ m. text "mode-changed" ∷ str D "current" m ∷ text "" ∷ [])),
      )
      ∷ (
        "vikasa.dms.fault-raised.v1",
        handler D "dms_event" ("event_kind" ∷ "mode" ∷ "fault_id" ∷ []) "commonv1.FaultRaised"
            (one D (λ m. text "fault-raised" ∷ text "" ∷ str D "fault_id" m ∷ [])),
      )
      ∷ (
        "vikasa.dms.fault-cleared.v1",
        handler D "dms_event" ("event_kind" ∷ "mode" ∷ "fault_id" ∷ []) "commonv1.FaultCleared"
            (one D (λ m. text "fault-cleared" ∷ text "" ∷ str D "fault_id" m ∷ [])),
      )
      ∷ (
        "vikasa.reversible-lane.lane-state-changed.v1",
        handler D "reversible_lane_state"
            ("flow_state" ∷ "open_direction" ∷ "previous_direction" ∷ "initiated_by" ∷ [])
            "reversiblelanev1.LaneStateChanged"
            (one D (λ m.
              str D "new_state" m
              ∷ str D "new_direction" m
              ∷ str D "previous_direction" m
              ∷ str D "initiated_by" m
              ∷ [])),
      )
      ∷ []

  -- The heartbeat's row is the prefix alone, and its payload is not decoded.
  abbrev pub heartbeat_handler : Handler D
  heartbeat_handler = record {
    table = "heartbeats";
    columns = cols [];
    extract = λ env p. ok (prefix D env p ∷ []);
  }

  unfoldable pub registry : Dict String (Handler D)
  registry =
      signal_handlers
      ++ sensor_handlers
      ++ sign_handlers
      ++ ("vikasa.gateway.heartbeat.v1", heartbeat_handler) ∷ []
