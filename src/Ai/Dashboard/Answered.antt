-- ===== src/Ai/Dashboard/Answered.antt =====
-- What the queries of a take have been answered in internal/ai/verify.go.
use mathlib.Core.Path.{subst}
use vikasa_demo.Base.{
  ℕ, ◌<◌, ◌==◌, true, false, String, List, [], ◌∷◌, ◌++◌, none, some, ltb, ltb→lt, ◌≡◌, refl, ap,
  sym, ◌∙◌, arith, All, Bool-cases, inl, inr, Option-cases,
}
use vikasa_demo.Verify.Network.{Reply, unbuilt, unsent, answered}
use vikasa_demo.Ai.Macros.{substitute_macros}
use vikasa_demo.Ai.Panels.{PanelQuery, PanelResult, any_error, any_rows, take_error, count_tsv_rows}
use vikasa_demo.Ai.Dashboard.{
  Bench, panel_result, bench_url, formatted, rows_of, run_ch_row_count, run_queries,
}

no_error-All :
    (rs : List PanelResult) → any_error rs ≡ false → All (λ (r : PanelResult). r.passes ≡ true) rs
no_error-All [] h = tt
no_error-All (r ∷ rs) h = (ground (arith, h), no_error-All rs (ground (arith, h)))

-- a result with rows among the results
abbrev pub HasRows : List PanelResult → Type 0
HasRows rs =
    (before : List PanelResult) × (r : PanelResult) × (after : List PanelResult) × (rs
      ≡ before ++ r ∷ after)
    × (0 < r.rows)

rows-HasRows : (rs : List PanelResult) → any_rows rs ≡ true → HasRows rs
rows-HasRows [] h = absurd (cc)
rows-HasRows (r ∷ rs) h = elim (Bool-cases (ltb 0 r.rows)) [
  | inl e ↦ ([], r, rs, refl, ltb→lt 0 r.rows e)
  | inr e ↦
      let (before, x, after, p, q) = rows-HasRows rs (rw e at h) in
      (r ∷ before, x, after, ap (λ y. r ∷ y) p, q)
]

pub accepted :
    (rs : List PanelResult)
    → take_error rs ≡ none
    → All (λ (r : PanelResult). r.passes ≡ true) rs × HasRows rs
unfolding take_error
accepted rs h = elim (Bool-cases (any_error rs)) [
  | inl e ↦ let g = rw e at h in absurd (cc)
  | inr e ↦ elim (Bool-cases (any_rows rs)) [
    | inl k ↦ (no_error-All rs e, rows-HasRows rs k)
    | inr k ↦ let g = rw (e, k) at h in absurd (cc)
  ]
]

module _ (B : Bench) where
  open B use {grafana, post}

  -- The queries, one after the other, with their macros replaced, are posted to ClickHouse, and each has
  -- the status 200 for an answer and a body, of which the rows are counted.
  pub data AllAnswered (ch : String)
      : List PanelQuery → List PanelResult → grafana.State → grafana.State → Type 0 where
    all_done : {s : grafana.State} → AllAnswered ch [] [] s s
    one_more :
        {q : PanelQuery} {qs : List PanelQuery} {rs : List PanelResult} {s s1 s' : grafana.State}
        (body : String)
        → post (bench_url B ch) (formatted B (substitute_macros q.raw_sql)) s
          ≡ (s1, answered 200 (some body))
        → AllAnswered ch qs rs s1 s'
        → AllAnswered ch
            (q ∷ qs)
            ((record {
              panel_id = q.panel_id;
              panel_title = q.panel_title;
              query = substitute_macros q.raw_sql;
              rows = count_tsv_rows body;
              passes = true;
            })
              ∷ rs)
            s
            s'

  rows_given :
      (reply : Reply) (n : ℕ)
      → rows_of B reply ≡ some n
      → (body : String) × (reply ≡ answered 200 (some body)) × (n ≡ count_tsv_rows body)
  unfolding rows_of
  rows_given unbuilt n h = absurd (cc)
  rows_given unsent n h = absurd (cc)
  rows_given (answered status none) n h = absurd (cc)
  rows_given (answered status (some body)) n h = elim (Bool-cases (status == 200)) [
    | inl e ↦
        let m : status ≡ 200 = ground (arith, e) in
        let k = rw e at h in (body, ap (λ x. answered x (some body)) m, (cc))
    | inr e ↦ let k = rw e at h in absurd (cc)
  ]

  pub run_queries-AllAnswered :
      (ch : String) (qs : List PanelQuery) (s : grafana.State)
      → All (λ (r : PanelResult). r.passes ≡ true) (run_queries B ch qs s).1
      → AllAnswered ch qs (run_queries B ch qs s).1 s (run_queries B ch qs s).0
  unfolding run_queries run_ch_row_count
  run_queries-AllAnswered ch [] s h = all_done
  run_queries-AllAnswered ch (q ∷ qs) s h =
      elim (Option-cases (run_ch_row_count B ch (substitute_macros q.raw_sql) s).1) [
        | inl e ↦ absurd (let k = rw e at h.0 in cc)
        | inr (n, e) ↦
            let sql = substitute_macros q.raw_sql in
            let s1 = (run_ch_row_count B ch sql s).0 in
            let (s', rest) = run_queries B ch qs s1 in
            let (body, f, m) = rows_given (post (bench_url B ch) (formatted B sql) s).1 n e in
            subst (λ o. AllAnswered ch (q ∷ qs) (panel_result B q sql o ∷ rest) s s')
              (sym (e ∙ ap some m))
              (one_more body (ap (λ r. (s1, r)) f) (run_queries-AllAnswered ch qs s1 h.1))
      ]
