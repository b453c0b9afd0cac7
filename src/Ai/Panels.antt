-- ===== src/Ai/Panels.antt =====
-- internal/ai/verify.go: the queries of the panels of a dashboard, the newest dashboard, and what is
-- counted of the results.
pub mod Newest
use vikasa_demo.Base.{
  ℕ, suc, Bool, true, false, ◌||◌, not, String, List, [], ◌∷◌, ◌++◌, Option, none, some, str_eq,
  if◌then◌else◌, ltb, ℤ, pos, negsuc, split_on,
}
use vikasa_demo.Verify.Answers.{trim_space, trim_right}
use vikasa_demo.Verify.Docker.{is_newline}
use vikasa_demo.Ai.Grafana.{DashSearchResult, AiError, all_empty, queries_failed}

-- rawPanel, with the queries of its targets
mutual
  pub data RawPanel : Type 0 where
    raw_panel : (id : ℤ) (title : String) (targets : List String) (panels : RawPanels) → RawPanel

  pub data RawPanels : Type 0 where
    no_more : RawPanels
    and_more : RawPanel → RawPanels → RawPanels

pub record PanelQuery : Type 0 where
  pub panel_id : ℤ
  pub panel_title : String
  pub raw_sql : String

-- the targets of a panel that have a query
unfoldable pub target_queries : ℤ → String → List String → List PanelQuery
unfolding trim_space
target_queries id title [] = []
target_queries id title (sql ∷ rest) =
    let later = target_queries id title rest in
    if str_eq (trim_space sql) ""
    then later
    else (record { panel_id = id; panel_title = title; raw_sql = sql }) ∷ later

unfoldable mutual
  pub panel_queries : RawPanel → List PanelQuery
  panel_queries (raw_panel id title targets panels) = target_queries id title targets ++ walk panels

  pub walk : RawPanels → List PanelQuery
  walk no_more = []
  walk (and_more p ps) = panel_queries p ++ walk ps

-- a > b
abbrev pub exceeds : ℤ → ℤ → Bool
exceeds (pos m) (pos n) = ltb n m
exceeds (pos m) (negsuc n) = true
exceeds (negsuc m) (pos n) = false
exceeds (negsuc m) (negsuc n) = ltb m n

unfoldable pub newest_of : DashSearchResult → List DashSearchResult → DashSearchResult
newest_of newest [] = newest
newest_of newest (r ∷ rs) = newest_of (if exceeds r.id newest.id then r else newest) rs

unfoldable pub newest_dashboard : List DashSearchResult → Option DashSearchResult
unfolding newest_of
newest_dashboard [] = none
newest_dashboard (r ∷ rs) = some (newest_of r rs)

pub record PanelResult : Type 0 where
  pub panel_id : ℤ
  pub panel_title : String
  pub query : String
  pub rows : ℕ
  pub passes : Bool

unfoldable pub count_failed : List PanelResult → ℕ
count_failed [] = 0
count_failed (r ∷ rs) = let n = count_failed rs in if r.passes then n else suc n

unfoldable pub count_lines : List String → ℕ
unfolding trim_space
count_lines [] = 0
count_lines (l ∷ ls) = let n = count_lines ls in if str_eq (trim_space l) "" then n else suc n

unfoldable pub count_tsv_rows : String → ℕ
unfolding count_lines
count_tsv_rows body = count_lines (split_on is_newline (trim_right is_newline body))

abbrev pub any_error : List PanelResult → Bool
any_error [] = false
any_error (r ∷ rs) = not r.passes || any_error rs

abbrev pub any_rows : List PanelResult → Bool
any_rows [] = false
any_rows (r ∷ rs) = ltb 0 r.rows || any_rows rs

-- the `switch` at the end
unfoldable pub take_error : List PanelResult → Option AiError
unfolding count_failed
take_error results =
    if any_error results
    then some (queries_failed (count_failed results))
    else if any_rows results
    then none
    else some all_empty
