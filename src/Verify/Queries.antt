-- ===== src/Verify/Queries.antt =====
-- The queries of internal/verify/checks.go.
use vikasa_demo.Base.{String, [], ◌∷◌, texts}

abbrev pub database : String → String
database dot = texts ("vikasa_" ∷ dot ∷ [])

abbrev pub recent_events_query : String → String
recent_events_query db = texts (
    "SELECT count() FROM " ∷ db ∷ ".events_raw WHERE ce_time > now() - INTERVAL 2 MINUTE FORMAT TSV"
    ∷ [])

abbrev pub heartbeat_freshness_query : String → String
heartbeat_freshness_query db = texts (
    "SELECT dateDiff('second', max(ingested_at), now64(3)) FROM " ∷ db ∷ ".heartbeats FORMAT TSV"
    ∷ [])

abbrev pub dead_letter_query : String → String
dead_letter_query db = texts (
    "SELECT count() FROM " ∷ db
    ∷ ".events_dead_letter WHERE received_at > now() - INTERVAL 1 HOUR FORMAT TSV" ∷ [])

abbrev pub optimize_events_raw_query : String → String
optimize_events_raw_query db = texts ("OPTIMIZE TABLE " ∷ db ∷ ".events_raw FINAL" ∷ [])

abbrev pub dedup_counts_query : String → String
dedup_counts_query db = texts (
    "SELECT count(), countDistinct(ce_id) FROM " ∷ db
    ∷ ".events_raw WHERE ce_time > now() - INTERVAL 30 MINUTE FORMAT TSV" ∷ [])
