-- ===== src/Ai/Tests.antt =====
-- The check of the assistant's dashboard at concrete inputs.
use vikasa_demo.Base.{
  ℕ, ◌+◌, false, true, ◌≡◌, ◌↔◌, refl, String, List, [], ◌∷◌, none, some, pos, str_append, texts,
  length, split_on,
}
use vikasa_demo.Verify.Answers.{trim_space, is_space}
use vikasa_demo.Verify.Network.{answered}
use vikasa_demo.Ai.Macros.{
  substitute_macros, cut_at, strip_prefix, close, time_filter_macro, last_six_hours,
  substitute_time_filter,
}
use vikasa_demo.Ai.Macros.Balance.{empty, plain, nested, substitute_time_filter-balanced}
use vikasa_demo.Ai.Grafana.{
  Grafana, Client, DashSearchResult, do_request, search_folder_dashboards, reset,
}
use vikasa_demo.Ai.Grafana.Answers.{Finds}
use vikasa_demo.Ai.Grafana.Resets.{AllDeleted, reset-AllDeleted}
use vikasa_demo.Ai.Panels.{
  RawPanels, raw_panel, no_more, and_more, walk, target_queries, newest_dashboard, newest_of,
  PanelResult, count_tsv_rows, take_error,
}
use vikasa_demo.Ai.Dashboard.{
  Bench, verify_ai_dashboard, searched, with_newest, fetched, with_panels, with_queries,
  run_queries, run_ch_row_count, rows_of,
}
use vikasa_demo.Ai.Dashboard.Takes.{IsGood, verify_ai_dashboard-IsGood}

two_macros :
    substitute_macros "WHERE $__timeFilter( (ce_time) ) AND t < $__toTime"
    ≡ "WHERE (ce_time) > now() - INTERVAL 6 HOUR AND t < now()"
unfolding substitute_macros cut_at strip_prefix close trim_space is_space
two_macros = refl

unclosed : substitute_macros "$__timeFilter(a" ≡ "$__timeFilter(a"
unfolding substitute_macros cut_at strip_prefix close trim_space is_space
unclosed = refl

-- a query in a row, between a blank one and an empty panel
abbrev board : RawPanels
board =
    and_more
      (raw_panel (pos 1) "row" (" " ∷ [])
        (and_more (raw_panel (pos 2) "volume" ("SELECT 1" ∷ []) no_more) no_more))
      (and_more (raw_panel (pos 3) "text" [] no_more) no_more)

queries_of_board :
    walk board ≡ record { panel_id = pos 2; panel_title = "volume"; raw_sql = "SELECT 1" } ∷ []
unfolding walk target_queries trim_space is_space
queries_of_board = refl

-- a row whose only value is empty is not counted
no_row_of_empty : count_tsv_rows "\n" ≡ 0
unfolding count_tsv_rows trim_space is_space split_on
no_row_of_empty = refl

abbrev dashboards : List DashSearchResult
dashboards =
    record { id = pos 4; uid = "a"; title = "old" }
    ∷ record { id = pos 9; uid = "b"; title = "new" }
    ∷ []

abbrev later_filter : String
later_filter = "u > $__fromTime AND "

substitute_time_filter-balanced_example :
    substitute_time_filter (
      str_append later_filter
        (str_append time_filter_macro (str_append "(t)" (String.◌∷◌ ")" " AND x"))))
    ≡ texts
        (later_filter ∷ trim_space "(t)" ∷ last_six_hours ∷ substitute_time_filter " AND x" ∷ [])
unfolding cut_at strip_prefix
substitute_time_filter-balanced_example =
    substitute_time_filter-balanced later_filter "(t)" " AND x" refl
      (nested "t" "" (plain "t" "" refl refl empty) empty)

-- a Grafana with the two dashboards, where everything succeeds
abbrev grafana : Grafana
grafana = record {
  State = ℕ;
  request = λ method user url body n. (n + 1, answered 200 (some "{}"));
  print_int = λ n. "7";
  decode_id = λ body. some (pos 7);
  decode_accounts = λ body. some [];
  decode_tokens = λ body. some [];
  decode_key = λ body. some "key";
  decode_results = λ body. some dashboards;
  decode_envelope = λ body. some "board";
}

abbrev bench : Bench
bench = record {
  grafana = grafana;
  post = λ url sql n. (n + 1, answered 200 (some "1\n"));
  matches = λ pattern text. false;
  query_escape = λ text. text;
  decode_dashboard = λ text. some board;
}

abbrev client : Client
client = record { base_url = "http://localhost:3000"; user = "" }

abbrev results : List PanelResult
results =
    record { panel_id = pos 2; panel_title = "volume"; query = "SELECT 1"; rows = 1; passes = true }
    ∷ []

verify_ai_dashboard-IsGood_example : IsGood bench client "http://localhost:8123" 0 3 results
unfolding verify_ai_dashboard search_folder_dashboards do_request searched with_newest fetched
    with_panels with_queries take_error newest_dashboard newest_of run_queries run_ch_row_count
    rows_of count_tsv_rows substitute_macros cut_at strip_prefix walk target_queries trim_space
    is_space split_on
verify_ai_dashboard-IsGood_example =
    verify_ai_dashboard-IsGood bench client "http://localhost:8123" 0 3 results refl

reset-AllDeleted_example : (reset grafana client 0 ≡ (3, (2, none))) ↔ (
    (ds : List DashSearchResult) × (s1 : ℕ) × Finds grafana client ds 0 s1
    × AllDeleted grafana client ds s1 3
    × (2 ≡ length ds))
reset-AllDeleted_example = reset-AllDeleted grafana client 2 0 3
