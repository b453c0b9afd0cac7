-- ===== src/Ai/Dashboard/Takes.antt =====
-- When internal/ai/verify.go accepts a take.
use mathlib.Core.Path.{subst}
use vikasa_demo.Base.{
  ℕ, ◌==◌, true, String, List, [], ◌∷◌, Option, none, some, Result, ok, err, str_append, ◌≡◌, refl,
  ap, sym, arith, All, Bool-cases, inl, inr,
}
use vikasa_demo.Verify.Network.{Reply}
use vikasa_demo.Ai.Grafana.{
  no_body, DashSearchResult, AiError, Client, do_request, search_folder_dashboards,
}
use vikasa_demo.Ai.Grafana.Answers.{Finds, Gives, given, search_folder_dashboards-Finds}
use vikasa_demo.Ai.Panels.{RawPanels, PanelQuery, walk, newest_dashboard, PanelResult, take_error}
use vikasa_demo.Ai.Dashboard.{
  Bench, run_queries, with_queries, with_panels, fetched, with_newest, searched,
  verify_ai_dashboard,
}
use vikasa_demo.Ai.Panels.Newest.{IsNewest, newest_dashboard-IsNewest}
use vikasa_demo.Ai.Dashboard.Answered.{HasRows, accepted, AllAnswered, run_queries-AllAnswered}

module _ (B : Bench) where
  open B use {grafana, decode_dashboard}

  abbrev Outcome : Type 0
  Outcome = grafana.State × (List PanelResult × Option AiError)

  module _ (ch : String) (s' : grafana.State) (rs : List PanelResult) where
    abbrev Accepts : Outcome → Type 0
    Accepts o = o ≡ (s', (rs, none))

    of_run :
        (q : grafana.State × List PanelResult)
        → Accepts (q.0, (q.1, take_error q.1))
        → (q ≡ (s', rs)) × (take_error rs ≡ none)
    of_run (s1, rs1) h =
        let p = ap (λ y. y.0) h in
        let r = ap (λ y. y.1.0) h in (cc, subst (λ x. take_error x ≡ none) r (ap (λ y. y.1.1) h))

    of_queries :
        (qs : List PanelQuery) (s : grafana.State)
        → Accepts (with_queries B ch qs s)
        → (run_queries B ch qs s ≡ (s', rs)) × (take_error rs ≡ none)
    unfolding with_queries
    of_queries [] s h = absurd (let g = ap (λ y. y.1.1) h in cc)
    of_queries (q ∷ qs) s h = of_run (run_queries B ch (q ∷ qs) s) h

    of_panels :
        (o : Option RawPanels) (s : grafana.State)
        → Accepts (with_panels B ch o s)
        → (panels : RawPanels) × (o ≡ some panels)
          × (run_queries B ch (walk panels) s ≡ (s', rs))
          × (take_error rs ≡ none)
    unfolding with_panels
    of_panels none s h = absurd (let g = ap (λ y. y.1.1) h in cc)
    of_panels (some panels) s h =
        let (run, t) = of_queries (walk panels) s h in (panels, refl, run, t)

    of_fetched :
        (q : grafana.State × Result AiError (ℕ × String))
        → Accepts (fetched B ch q)
        → (dashboard : String) × (panels : RawPanels) × (q.1 ≡ ok (200, dashboard))
          × (decode_dashboard dashboard ≡ some panels)
          × (run_queries B ch (walk panels) q.0 ≡ (s', rs))
          × (take_error rs ≡ none)
    unfolding fetched
    of_fetched (s, err e) h = absurd (let g = ap (λ y. y.1.1) h in cc)
    of_fetched (s, ok (status, dashboard)) h = elim (Bool-cases (status == 200)) [
      | inl e ↦
          let (panels, o, run, t) = of_panels (decode_dashboard dashboard) s (rw e at h) in
          (dashboard, panels, ap (λ n. ok (n, dashboard)) (ground (arith, e)), o, run, t)
      | inr e ↦ let g = ap (λ y. y.1.1) (rw e at h) in absurd (cc)
    ]

  -- What a take has that is accepted with some results.
  pub record IsGood (c : Client) (ch : String) (s s' : grafana.State) (rs : List PanelResult)
      : Type 0 where
    pub after_search : grafana.State
    pub after_fetch : grafana.State
    pub dashboards : List DashSearchResult
    pub newest : DashSearchResult
    pub dashboard : String
    pub panels : RawPanels
    pub searches : Finds grafana c dashboards s after_search
    pub is_newest : IsNewest newest dashboards
    pub reply : Reply
    pub fetches :
        grafana.request "GET" c.user
          (str_append c.base_url (str_append "/api/dashboards/uid/" newest.uid))
          no_body
          after_search
        ≡ (after_fetch, reply)
    pub fetched_dashboard : Gives grafana grafana.decode_envelope "" reply dashboard
    pub decodes : decode_dashboard dashboard ≡ some panels
    pub runs : AllAnswered B ch (walk panels) rs after_fetch s'
    pub has_rows : HasRows rs

  of_newest :
      (c : Client) (ch : String) (s s' s1 : grafana.State) (rs : List PanelResult)
      (ds : List DashSearchResult) (o : Option DashSearchResult)
      → search_folder_dashboards grafana c s ≡ (s1, ok ds)
      → newest_dashboard ds ≡ o
      → with_newest B c ch o s1 ≡ (s', (rs, none))
      → IsGood c ch s s' rs
  unfolding with_newest do_request
  of_newest c ch s s' s1 rs ds none at n h = absurd (let g = ap (λ y. y.1.1) h in cc)
  of_newest c ch s s' s1 rs ds (some newest) at n h =
      let path = str_append "/api/dashboards/uid/" newest.uid in
      let q = do_request grafana c "GET" path no_body grafana.decode_envelope "" s1 in
      let reply = (grafana.request "GET" c.user (str_append c.base_url path) no_body s1).1 in
      let (dashboard, panels, e, o, run, t) = of_fetched ch s' rs q h in
      let (pass, rows) = accepted rs t in
      record {
        after_search = s1;
        after_fetch = q.0;
        dashboards = ds;
        newest = newest;
        dashboard = dashboard;
        panels = panels;
        searches = search_folder_dashboards-Finds grafana c ds s s1 at;
        is_newest = newest_dashboard-IsNewest ds newest n;
        reply = reply;
        fetches = refl;
        fetched_dashboard = given grafana grafana.decode_envelope "" reply dashboard e;
        decodes = o;
        runs =
            subst (λ y. AllAnswered B ch (walk panels) y.1 q.0 y.0) run
              (run_queries-AllAnswered B ch (walk panels) q.0
                (subst (λ y. All (λ (r : PanelResult). r.passes ≡ true) y.1) (sym run) pass));
        has_rows = rows;
      }

  of_searched :
      (c : Client) (ch : String) (s s' : grafana.State) (rs : List PanelResult)
      (q : grafana.State × Result AiError (List DashSearchResult))
      → search_folder_dashboards grafana c s ≡ q
      → searched B c ch q ≡ (s', (rs, none))
      → IsGood c ch s s' rs
  unfolding searched
  of_searched c ch s s' rs (s1, err e) at h = absurd (let g = ap (λ y. y.1.1) h in cc)
  of_searched c ch s s' rs (s1, ok ds) at h =
      of_newest c ch s s' s1 rs ds (newest_dashboard ds) at refl h

  -- The check accepts a take only where the search of the folder and then the fetch of its newest
  -- dashboard, the first with the highest identifier, have the status 200 for an answer, the dashboard
  -- can be read, each of its queries in order, with its macros replaced, is posted to ClickHouse and has
  -- the status 200 for an answer, whose rows are those of its result, and some result has a row.
  pub verify_ai_dashboard-IsGood :
      (c : Client) (ch : String) (s s' : grafana.State) (rs : List PanelResult)
      → verify_ai_dashboard B c ch s ≡ (s', (rs, none))
      → IsGood c ch s s' rs
  unfolding verify_ai_dashboard
  verify_ai_dashboard-IsGood c ch s s' rs h =
      of_searched c ch s s' rs (search_folder_dashboards grafana c s) refl h
