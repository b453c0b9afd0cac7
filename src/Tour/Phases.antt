-- ===== src/Tour/Phases.antt =====
-- internal/tour/phases.go: the assertions of the phases.
use vikasa_demo.Base.{
  ℕ, false, not, String, List, [], ◌∷◌, if◌then◌else◌, str_eq, texts, ok, string_eq,
}
use vikasa_demo.Verify.Answers.{trim_space}
use vikasa_demo.Verify.Network.{◌>>=◌, ◌>>◌, pure}
use vikasa_demo.Verify.Queries.{database}
use vikasa_demo.Verify.Checks.{
  DedupResult, run_dedup, is_positive, is_zero, at_most, heartbeat_freshness_threshold,
}
use vikasa_demo.Tour.Queries.{
  cabinet_heartbeat_freshness_query, active_fault_count_query, reversible_directions_query,
  latest_operational_mode_query, phase_state_change_count_query,
  federation_detected_incident_count_query, federation_advisory_count_query,
  federation_non_corridor_leak_query,
}
use vikasa_demo.Tour.Stage.{
  Stage, Act, labelled, expect, of_result, query, query_scalar, sim_dropped,
}
use vikasa_demo.Tour.Phase.{assert_baseline}

abbrev pub all_dots : List String
all_dots = "mardot" ∷ "veldot" ∷ "sabdot" ∷ []

abbrev pub sibling_cabinets : List String
sibling_cabinets = "cab-002" ∷ "cab-003" ∷ []

module _ (T : Stage) where
  open T use {net}

  -- a loop over names whose body may return an error
  abbrev pub for_each : List String → (String → Act T (Unit {0})) → Act T (Unit {0})
  for_each [] body = pure (ok tt)
  for_each (x ∷ xs) body = body x >> for_each xs body

  unfoldable pub baseline_assert : String → Act T (Unit {0})
  unfolding assert_baseline
  baseline_assert ch = for_each all_dots (λ dot. labelled dot (assert_baseline T ch (database dot)))

  abbrev pub sibling_assert : String → String → String → String → Act T (Unit {0})
  unfolding query_scalar
  sibling_assert ch db cabinet sibling = do
    age ←
        labelled (texts ("sibling " ∷ sibling ∷ " heartbeat freshness" ∷ []))
          (query_scalar T ch (cabinet_heartbeat_freshness_query db sibling))
    expect (at_most age heartbeat_freshness_threshold) (
        texts (
          "sibling "
          ∷ sibling
          ∷ " heartbeat age = "
          ∷ net.print_int age
          ∷ "s, want <= 45s (should be unaffected by "
          ∷ cabinet
          ∷ "'s cut)"
          ∷ []))

  unfoldable pub wan_cut_assert : String → String → String → ℕ → Act T (Unit {0})
  unfolding query_scalar sibling_assert assert_baseline sim_dropped
  wan_cut_assert ch db cabinet port = do
    age ←
        labelled (texts (cabinet ∷ " heartbeat freshness" ∷ []))
          (query_scalar T ch (cabinet_heartbeat_freshness_query db cabinet))
    expect (not (at_most age heartbeat_freshness_threshold)) (
        texts (
          cabinet
          ∷ " heartbeat age = "
          ∷ net.print_int age
          ∷ "s, want > 45s (the cut should be visible from ClickHouse)"
          ∷ []))
    for_each sibling_cabinets (sibling_assert ch db cabinet)
    for_each ("veldot" ∷ "sabdot" ∷ []) (λ dot.
        labelled (texts (dot ∷ " (should be unaffected)" ∷ []))
          (assert_baseline T ch (database dot)))
    dropped ← labelled (texts (cabinet ∷ " sim dropped counter" ∷ [])) (sim_dropped T port)
    expect (is_zero dropped) (
        texts (
          cabinet
          ∷ " sim reports dropped="
          ∷ net.print_int dropped
          ∷ ", want 0 (buffering should absorb the cut, not drop)"
          ∷ []))

  abbrev pub dedup_of : String → String → Act T DedupResult
  unfolding run_dedup
  dedup_of ch db s =
      let (s', r) = run_dedup net (record { ch = ch; db = db; expect_stale = false }) s in
      (s', of_result r)

  unfoldable pub restore_assert : String → String → String → Act T (Unit {0})
  unfolding query_scalar assert_baseline dedup_of
  restore_assert ch db cabinet = do
    labelled "baseline" (assert_baseline T ch db)
    dedup ← labelled "dedup" (dedup_of ch db)
    expect (is_zero dedup.diff) (
        texts (
          "dedup: "
          ∷ net.print_int dedup.diff
          ∷ " duplicate ce_id row(s) (count="
          ∷ net.print_int dedup.count
          ∷ " distinct="
          ∷ net.print_int dedup.distinct
          ∷ ")"
          ∷ []))
    n ←
        labelled "phase_state_change backfill"
          (query_scalar T ch (phase_state_change_count_query db cabinet "15"))
    expect (not (is_zero n)) (
        texts (
          cabinet
          ∷ " has 0 phase_state_change rows in the last 15m -- the buffered backlog doesn't appear to have landed"
          ∷ []))

  abbrev mode_assert : String → String → String → Act T (Unit {0})
  unfolding query trim_space
  mode_assert ch db cabinet = do
    out ←
        labelled (texts (cabinet ∷ " operational mode" ∷ []))
          (query T ch (latest_operational_mode_query db cabinet))
    expect (str_eq (trim_space out) "flash") (
        texts (
          cabinet
          ∷ ": no active controller_fault_event AND operational_status mode = \""
          ∷ trim_space out
          ∷ "\" (want an active fault or mode=flash)"
          ∷ []))

  unfoldable pub fault_assert : String → String → String → Act T (Unit {0})
  unfolding query_scalar mode_assert
  fault_assert ch db cabinet = do
    faults ←
        labelled (texts (cabinet ∷ " active faults" ∷ []))
          (query_scalar T ch (active_fault_count_query db cabinet))
    if is_positive faults then pure (ok tt) else mode_assert ch db cabinet

  unfoldable pub corridor_assert : String → String → String → List String → Act T (Unit {0})
  unfolding query_scalar federation_non_corridor_leak_query
  corridor_assert ch dot cabinet corridor_cabinets = do
    incidents ←
        labelled "federation incident"
          (query_scalar T ch (federation_detected_incident_count_query dot cabinet))
    expect (not (is_zero incidents)) (
        texts (
          "vikasa_federation.perception_incident: no detected incident for dot=" ∷ dot ∷ " cabinet="
          ∷ cabinet ∷ []))
    advisories ←
        labelled "federation dms advisory"
          (query_scalar T ch (federation_advisory_count_query dot cabinet))
    expect (not (is_zero advisories)) (
        texts (
          "vikasa_federation.dms_event: no advisory-mode row for dot=" ∷ dot ∷ " cabinet=" ∷ cabinet
          ∷ []))
    leaked ←
        labelled "dmz boundary check"
          (query_scalar T ch (federation_non_corridor_leak_query dot corridor_cabinets))
    expect (is_zero leaked) (
        texts (
          "vikasa_federation.perception_incident: "
          ∷ net.print_int leaked
          ∷ " row(s) from a non-corridor cabinet leaked across the DMZ"
          ∷ []))

  unfoldable pub reversible_assert : String → String → Act T (Unit {0})
  unfolding query_scalar
  reversible_assert ch db = do
    dirs ←
        labelled "reversible-lane directions" (query_scalar T ch (reversible_directions_query db))
    expect (not (at_most dirs 1)) (
        texts (
          "reversible lane showed "
          ∷ net.print_int dirs
          ∷ " distinct open directions in the last 5m, want >= 2 (it should flip northbound<->southbound on schedule)"
          ∷ []))
