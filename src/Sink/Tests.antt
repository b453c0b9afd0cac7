-- ===== src/Sink/Tests.antt =====
-- The sink at concrete inputs.
mod Binding
use vikasa_demo.Base.{
  ℕ, ◌+◌, ◌≤◌, ◌<◌, ◌≡◌, ◌≢◌, refl, Bool, true, false, String, Option, none, some, List, [], ◌∷◌,
  ◌++◌, All, ok, err, arith, ◌==◌, if◌then◌else◌, join, split, get, string_eq, str_eq, map, length,
}
use vikasa_demo.Events.Subject.{SubjectParts, parse_subject, parse_share_subject, is_token}
use vikasa_demo.Events.Paper.{paper, header_of}
use vikasa_demo.Events.Envelope.{Envelope, Msg, message, headers, from_msg}
use vikasa_demo.Sink.Shelf.{plain, Kept, shelf, shelf_storage}
use vikasa_demo.Sink.Handlers.{Value, text, time, num, decoding}
use vikasa_demo.Sink.Registry.{registry}
use vikasa_demo.Sink.Rows.{
  Row, rows, subject_parts, columns_for_table, columns_among, raw_row, flush, is_some,
}
use vikasa_demo.Sink.Rows.Alignment.{rows-aligned}
use vikasa_demo.Sink.Rows.Groups.{flush-each, insert_each, tables, rows_of}
use vikasa_demo.Sink.Batch.{Cause, World, process_batch, convert_all, is_none, convert}
use vikasa_demo.Sink.Batch.Acks.{IsDurable, process_batch-IsDurable, process_batch_handled}
use vikasa_demo.Sink.Loop.{Fetched, timed_out, fetch_failed, fetched, Consumer, run}
use vikasa_demo.Sink.Loop.Backoff.{
  start, failures, paces, run_waits, run-failures-start, run-AllDurable, AllDurable, InRange,
}

abbrev mode_changed : Envelope
mode_changed = record {
  id = "e3b0";
  ce_type = "vikasa.dms.mode-changed.v1";
  source = "//mardot/d1/cab-i85-001/sign";
  subject = "vikasa.mardot.d1.cab-i85-001.dms.sign.mode-changed";
  time = 3;
  payload = "advisory";
}

abbrev sign_parts : SubjectParts
sign_parts = record {
  dot = "mardot";
  district = "d1";
  cabinet = "cab-i85-001";
  service = "dms";
  controller = "sign";
  event = "mode-changed";
}

abbrev mode_row : Row plain
mode_row = record {
  table = "dms_event";
  values =
      text "e3b0"
      ∷ time 3
      ∷ time 3
      ∷ text "mardot"
      ∷ text "d1"
      ∷ text "cab-i85-001"
      ∷ text "sign"
      ∷ text "mode-changed"
      ∷ text "advisory"
      ∷ text ""
      ∷ [];
}

mode_changed-rows :
    rows plain mode_changed ≡ ok (mode_row ∷ raw_row plain mode_changed sign_parts ∷ [])
unfolding rows registry get decoding subject_parts parse_subject split is_token
mode_changed-rows = refl

rows-aligned_example :
    All
      (λ (r : Row plain). length r.values ≡ length (columns_for_table plain r.table))
      (mode_row ∷ raw_row plain mode_changed sign_parts ∷ [])
    × ((typed : List (Row plain)) × (p : SubjectParts) × (subject_parts mode_changed.subject ≡ ok p)
        × (mode_row ∷ raw_row plain mode_changed sign_parts ∷ []
            ≡ typed ++ raw_row plain mode_changed p ∷ []))
rows-aligned_example =
    rows-aligned plain mode_changed (mode_row ∷ raw_row plain mode_changed sign_parts ∷ [])
      mode_changed-rows

abbrev mixed_rows : List (Row plain)
mixed_rows = mode_row ∷ raw_row plain mode_changed sign_parts ∷ mode_row ∷ []

flush-each_example :
    flush plain (shelf "events_raw") mixed_rows []
    ≡ insert_each plain (shelf "events_raw") (tables plain mixed_rows) mixed_rows []
flush-each_example = flush-each plain (shelf "events_raw") mixed_rows []

-- two rows in one insert, and the raw events not stored
flush_mixed :
    flush plain (shelf "events_raw") mixed_rows []
    ≡ (("dms_event", mode_row.values ∷ mode_row.values ∷ []) ∷ [], "events_raw" ∷ [])
unfolding flush get vikasa_demo.Sink.Rows.insert_groups vikasa_demo.Sink.Rows.group
    vikasa_demo.Base.put
flush_mixed = refl

abbrev explain : Cause → String
explain c = "bad"

abbrev mode_msg : Msg paper
mode_msg = message paper mode_changed

abbrev stray_msg : Msg paper
stray_msg = record { subject = "stray"; header = []; payload = "?" }

abbrev fresh_world : (broken : String) → World paper plain (shelf broken) explain
fresh_world broken = record { store = []; acked = []; metrics = [] }

batch_fails :
    (process_batch paper plain
      (shelf "dms_event")
      explain
      (mode_msg ∷ stray_msg ∷ [])
      (fresh_world "dms_event")).0
    ≡ false
unfolding process_batch convert_all convert from_msg header_of get headers vikasa_demo.Base.put rows
    registry subject_parts parse_subject split decoding flush vikasa_demo.Sink.Rows.insert_groups
    vikasa_demo.Sink.Rows.group
batch_fails = refl

batch_works :
    (process_batch paper plain
      (shelf "")
      explain
      (mode_msg ∷ stray_msg ∷ [])
      (fresh_world "")).1.acked
    ≡ mode_msg ∷ stray_msg ∷ []
unfolding process_batch convert_all convert from_msg header_of get headers vikasa_demo.Base.put rows
    registry subject_parts parse_subject split decoding flush vikasa_demo.Sink.Rows.insert_groups
    vikasa_demo.Sink.Rows.group
batch_works = refl

process_batch-IsDurable_example :
    let (well, w') =
      process_batch paper plain (shelf "") explain (mode_msg ∷ stray_msg ∷ []) (fresh_world "") in
    (well ≡ true
      → (w'.acked ≡ [] ++ mode_msg ∷ stray_msg ∷ [])
        × All
            (IsDurable paper plain (shelf "") explain (shelf_storage "") w'.store)
            (mode_msg ∷ stray_msg ∷ []))
    × (well ≡ false
        → (w'.acked ≡ [])
          × (w'.store
              ≡ (flush plain
                  (shelf "")
                  (convert_all paper plain (shelf "") explain (mode_msg ∷ stray_msg ∷ [])).0
                  []).0))
    × ((u : String) (v : List (Value plain))
        → (shelf_storage "").Stored [] u v
        → (shelf_storage "").Stored w'.store u v)
process_batch-IsDurable_example =
    process_batch-IsDurable paper plain (shelf "") explain (shelf_storage "")
      (mode_msg ∷ stray_msg ∷ []) (fresh_world "")

abbrev some_fetches : (broken : String) → List (Fetched paper plain (shelf broken) explain)
some_fetches broken =
    fetch_failed ∷ fetched (mode_msg ∷ []) ∷ timed_out ∷ fetched (mode_msg ∷ stray_msg ∷ []) ∷ []

run-failures-start_example :
    ((run paper plain
        (shelf "")
        explain
        (failures paper plain (shelf "") explain 7)
        (start paper plain (shelf "") explain (fresh_world ""))).waits
      ≡ paces paper plain (shelf "") explain 7 0)
    × ((run paper plain
          (shelf "")
          explain
          (failures paper plain (shelf "") explain 7)
          (start paper plain (shelf "") explain (fresh_world ""))).world
        ≡ fresh_world "")
run-failures-start_example = run-failures-start paper plain (shelf "") explain 7 (fresh_world "")

run-AllDurable_example :
    AllDurable paper plain
      (shelf "")
      explain
      (shelf_storage "")
      (run paper plain
        (shelf "")
        explain
        (some_fetches "")
        (start paper plain (shelf "") explain (fresh_world ""))).world
run-AllDurable_example =
    run-AllDurable paper plain (shelf "") explain (shelf_storage "") (some_fetches "")
      (start paper plain (shelf "") explain (fresh_world "")) tt
