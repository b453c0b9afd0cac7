-- ===== src/Ai/Dashboard.antt =====
-- internal/ai/verify.go: the check of a take, which runs the queries of the newest dashboard.
pub mod Answered
pub mod Takes
use vikasa_demo.Base.{
  ℕ, suc, ◌+◌, ◌==◌, Bool, true, false, ◌||◌, not, Char, code, String, List, [], ◌∷◌, ◌++◌, Option,
  none, some, str_eq, if◌then◌else◌, ltb, texts, ℤ, pos, negsuc, Result, ok, err, str_append,
  split_on,
}
use vikasa_demo.Verify.Answers.{trim_space, trim_right}
use vikasa_demo.Verify.Docker.{is_newline}
use vikasa_demo.Verify.Network.{Reply, unbuilt, unsent, answered, Network, trim_slashes}
use vikasa_demo.Ai.Macros.{substitute_macros}
use vikasa_demo.Ai.Panels.{
  RawPanels, PanelQuery, PanelResult, walk, newest_dashboard, count_tsv_rows, take_error,
}
use vikasa_demo.Ai.Grafana.{
  readonly_ch_user, readonly_ch_password, no_body, DashSearchResult, AiError, unexpected,
  no_dashboard, no_queries, bad_dashboard, all_empty, queries_failed, Grafana, Client, do_request,
  search_folder_dashboards,
}

abbrev pub format_clause : String
format_clause = "(?i)\\bFORMAT\\s+\\w+\\s*$"

-- "; \t\n"
abbrev pub is_end : Char → Bool
is_end c = let n = code c in n == 59 || n == 32 || n == 9 || n == 10

-- ClickHouse and what the check takes from Go besides Grafana.
pub record Bench : Type 1 where
  pub grafana : Grafana
  -- a POST to a URL
  pub post : String → String → grafana.State → grafana.State × Reply
  -- regexp and url.QueryEscape
  pub matches : String → String → Bool
  pub query_escape : String → String
  -- the panels of a dashboard's JSON
  pub decode_dashboard : String → Option RawPanels

module _ (B : Bench) where
  open B use {grafana, post, matches, query_escape, decode_dashboard}

  unfoldable pub formatted : String → String
  unfolding trim_space
  formatted sql =
      let trimmed = trim_right is_end (trim_space sql) in
      if matches format_clause trimmed then trimmed else str_append trimmed "\nFORMAT TSV"

  abbrev is_slash : Char → Bool
  is_slash c = code c == 47

  abbrev pub bench_url : String → String
  bench_url ch = texts (
      trim_right is_slash ch
      ∷ "/?user="
      ∷ query_escape readonly_ch_user
      ∷ "&password="
      ∷ query_escape readonly_ch_password
      ∷ [])

  -- the rows of an answer, if it is one
  unfoldable pub rows_of : Reply → Option ℕ
  unfolding count_tsv_rows
  rows_of unbuilt = none
  rows_of unsent = none
  rows_of (answered status none) = none
  rows_of (answered status (some body)) = if status == 200 then some (count_tsv_rows body) else none

  unfoldable pub run_ch_row_count : String → String → grafana.State → grafana.State × Option ℕ
  unfolding formatted rows_of
  run_ch_row_count ch sql s =
      let (s', reply) = post (bench_url ch) (formatted sql) s in (s', rows_of reply)

  abbrev pub panel_result : PanelQuery → String → Option ℕ → PanelResult
  panel_result q sql none = record {
    panel_id = q.panel_id;
    panel_title = q.panel_title;
    query = sql;
    rows = 0;
    passes = false;
  }
  panel_result q sql (some rows) = record {
    panel_id = q.panel_id;
    panel_title = q.panel_title;
    query = sql;
    rows = rows;
    passes = true;
  }

  -- the loop over the queries
  unfoldable pub run_queries :
      String → List PanelQuery → grafana.State → grafana.State × List PanelResult
  unfolding run_ch_row_count substitute_macros
  run_queries ch [] s = (s, [])
  run_queries ch (q ∷ qs) s =
      let sql = substitute_macros q.raw_sql in
      let (s1, rows) = run_ch_row_count ch sql s in
      let (s2, rest) = run_queries ch qs s1 in (s2, panel_result q sql rows ∷ rest)

  unfoldable pub with_queries :
      String → List PanelQuery → grafana.State → grafana.State × (List PanelResult × Option AiError)
  unfolding run_queries take_error
  with_queries ch [] s = (s, ([], some no_queries))
  with_queries ch (q ∷ qs) s =
      let (s', results) = run_queries ch (q ∷ qs) s in (s', (results, take_error results))

  unfoldable pub with_panels :
      String
      → Option RawPanels
      → grafana.State
      → grafana.State × (List PanelResult × Option AiError)
  unfolding with_queries walk
  with_panels ch none s = (s, ([], some bad_dashboard))
  with_panels ch (some panels) s = with_queries ch (walk panels) s

  unfoldable pub fetched :
      String
      → grafana.State × Result AiError (ℕ × String)
      → grafana.State × (List PanelResult × Option AiError)
  unfolding with_panels
  fetched ch (s, err e) = (s, ([], some e))
  fetched ch (s, ok (status, dashboard)) =
      if status == 200
      then with_panels ch (decode_dashboard dashboard) s
      else (s, ([], some (unexpected "fetch dashboard" status)))

  unfoldable pub with_newest :
      Client
      → String
      → Option DashSearchResult
      → grafana.State
      → grafana.State × (List PanelResult × Option AiError)
  unfolding fetched do_request
  with_newest c ch none s = (s, ([], some no_dashboard))
  with_newest c ch (some newest) s = fetched ch (
      do_request grafana c "GET" (str_append "/api/dashboards/uid/" newest.uid) no_body
        grafana.decode_envelope "" s)

  unfoldable pub searched :
      Client
      → String
      → grafana.State × Result AiError (List DashSearchResult)
      → grafana.State × (List PanelResult × Option AiError)
  unfolding with_newest newest_dashboard
  searched c ch (s, err e) = (s, ([], some e))
  searched c ch (s, ok results) = with_newest c ch (newest_dashboard results) s

  -- VerifyAIDashboard: the results, and the error for which the take is rejected
  unfoldable pub verify_ai_dashboard :
      Client → String → grafana.State → grafana.State × (List PanelResult × Option AiError)
  unfolding search_folder_dashboards searched
  verify_ai_dashboard c ch s = searched c ch (search_folder_dashboards grafana c s)
