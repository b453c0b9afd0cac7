-- ===== src/Tour/Queries.antt =====
-- The queries of internal/tour/queries.go.
use vikasa_demo.Base.{String, List, [], ◌∷◌, texts}

abbrev pub cabinet_heartbeat_freshness_query : String → String → String
cabinet_heartbeat_freshness_query db cabinet = texts (
    "SELECT dateDiff('second', max(ingested_at), now64(3)) FROM " ∷ db
    ∷ ".heartbeats WHERE cabinet_id = '" ∷ cabinet ∷ "' FORMAT TSV" ∷ [])

abbrev pub active_fault_count_query : String → String → String
active_fault_count_query db cabinet = texts (
    "SELECT count() FROM (SELECT fault_id, argMax(raised, ce_time) AS active FROM " ∷ db
    ∷ ".controller_fault_event WHERE cabinet_id = '" ∷ cabinet
    ∷ "' AND ce_time > now() - INTERVAL 1 HOUR GROUP BY fault_id HAVING active = 1) FORMAT TSV"
    ∷ [])

abbrev pub reversible_directions_query : String → String
reversible_directions_query db = texts (
    "SELECT count(DISTINCT open_direction) FROM " ∷ db
    ∷ ".reversible_lane_state WHERE flow_state = 'LANE_FLOW_STATE_OPEN' AND ce_time > now() - INTERVAL 5 MINUTE FORMAT TSV"
    ∷ [])

abbrev pub latest_operational_mode_query : String → String → String
latest_operational_mode_query db cabinet = texts (
    "SELECT argMax(mode, ce_time) FROM " ∷ db ∷ ".operational_status WHERE cabinet_id = '" ∷ cabinet
    ∷ "' FORMAT TSV" ∷ [])

-- the minutes in text
abbrev pub phase_state_change_count_query : String → String → String → String
phase_state_change_count_query db cabinet minutes = texts (
    "SELECT count() FROM " ∷ db ∷ ".phase_state_change WHERE cabinet_id = '" ∷ cabinet
    ∷ "' AND ce_time > now() - INTERVAL " ∷ minutes ∷ " MINUTE FORMAT TSV" ∷ [])

abbrev pub federation_db : String
federation_db = "vikasa_federation"

abbrev pub federation_detected_incident_count_query : String → String → String
federation_detected_incident_count_query dot cabinet = texts (
    "SELECT count() FROM (SELECT cabinet_id, incident_id, argMax(state, ce_time) AS state FROM "
    ∷ federation_db ∷ ".perception_incident WHERE dot = '" ∷ dot ∷ "' AND cabinet_id = '" ∷ cabinet
    ∷ "' AND ce_time > now() - INTERVAL 1 HOUR GROUP BY cabinet_id, incident_id HAVING state = 'detected') FORMAT TSV"
    ∷ [])

abbrev pub federation_advisory_count_query : String → String → String
federation_advisory_count_query dot cabinet = texts (
    "SELECT count() FROM (SELECT cabinet_id, device_id, argMax(mode, ce_time) AS mode FROM "
    ∷ federation_db ∷ ".dms_event WHERE dot = '" ∷ dot ∷ "' AND cabinet_id = '" ∷ cabinet
    ∷ "' AND event_kind = 'mode-changed' AND ce_time > now() - INTERVAL 1 HOUR GROUP BY cabinet_id, device_id HAVING mode = 'advisory') FORMAT TSV"
    ∷ [])

-- the loop over the cabinets after the first
abbrev more_names : List String → String
more_names [] = ""
more_names (c ∷ cs) = texts (", '" ∷ c ∷ "'" ∷ more_names cs ∷ [])

unfoldable pub name_list : List String → String
name_list [] = "''"
name_list (c ∷ cs) = texts ("'" ∷ c ∷ "'" ∷ more_names cs ∷ [])

unfoldable pub federation_non_corridor_leak_query : String → List String → String
unfolding name_list
federation_non_corridor_leak_query dot cabinets = texts (
    "SELECT count() FROM "
    ∷ federation_db
    ∷ ".perception_incident WHERE dot = '"
    ∷ dot
    ∷ "' AND cabinet_id NOT IN ("
    ∷ name_list cabinets
    ∷ ") AND ce_time > now() - INTERVAL 1 HOUR FORMAT TSV"
    ∷ [])
