-- ===== src/Ai/Grafana/Resets.antt =====
-- What a reset of internal/ai/setup.go has deleted.
use mathlib.Core.Path.{subst}
use vikasa_demo.Base.{
  ℕ, ◌+◌, List, [], ◌∷◌, none, some, Result, ok, err, ◌≡◌, ◌↔◌, refl, ap, ◌∙◌, arith, length,
}
use vikasa_demo.Ai.Grafana.{
  AiError, Grafana, Client, DashSearchResult, delete_dashboard, delete_dashboards, reset, reset_of,
  search_folder_dashboards,
}
use vikasa_demo.Ai.Grafana.Answers.{
  Deletes, Finds, search_folder_dashboards-Finds, delete_dashboard-Deletes,
  Finds-search_folder_dashboards, Deletes-delete_dashboard,
}

module _ (G : Grafana) (c : Client) where
  open G use {State}

  -- The dashboards are deleted one after the other: each with a DELETE request for its identifier that
  -- has the status 200 for an answer.
  pub data AllDeleted : List DashSearchResult → State → State → Type 0 where
    all_done : {s : State} → AllDeleted [] s s
    one_more :
        {d : DashSearchResult} {ds : List DashSearchResult} {s s1 s' : State}
        → Deletes G c d s s1
        → AllDeleted ds s1 s'
        → AllDeleted (d ∷ ds) s s'

  finished :
      (ds : List DashSearchResult) (deleted n : ℕ) (s s' : State)
      → delete_dashboards G c ds deleted s ≡ (s', (n, none))
      → AllDeleted ds s s' × (n ≡ deleted + length ds)
  unfolding delete_dashboards
  finished [] deleted n s s' h =
      let p = ap (λ y. y.0) h in
      let q = ap (λ y. y.1.0) h in (subst (AllDeleted [] s) p all_done, omega (arith, q))
  finished (d ∷ ds) deleted n s s' h =
      after (λ s1. finished ds (deleted + 1) n s1 s') (delete_dashboard G c d s) refl h
    where
      after :
          ((s1 : State)
            → delete_dashboards G c ds (deleted + 1) s1 ≡ (s', (n, none))
            → AllDeleted ds s1 s' × (n ≡ (deleted + 1) + length ds))
          → (q : State × Result AiError (Unit {0})) → delete_dashboard G c d s ≡ q
          → (elim q.1 [
            | err e ↦ (q.0, (deleted, some e))
            | ok _ ↦ delete_dashboards G c ds (deleted + 1) q.0
          ])
            ≡ (s', (n, none))
          → AllDeleted (d ∷ ds) s s' × (n ≡ deleted + length (d ∷ ds))
      after rest (s1, err e) at g = absurd (cc)
      after rest (s1, ok u) at g =
          let (all, m) = rest s1 g in
          (one_more (delete_dashboard-Deletes G c d s s1 at) all, omega (arith, m))

  finished_back :
      (ds : List DashSearchResult) (deleted : ℕ) (s s' : State)
      → AllDeleted ds s s'
      → delete_dashboards G c ds deleted s ≡ (s', (deleted + length ds, none))
  unfolding delete_dashboards
  finished_back [] deleted s s' all_done = ap (λ n. (s, (n, none))) (omega arith)
  finished_back (d ∷ ds) deleted s s' (one_more {s1 = s1} at all) =
      let n : deleted + 1 + length ds ≡ deleted + length (d ∷ ds) = omega arith in
      ap
        (λ (q : State × Result AiError (Unit {0})). elim q.1 [
          | err e ↦ (q.0, (deleted, some e))
          | ok _ ↦ delete_dashboards G c ds (deleted + 1) q.0
        ])
        (Deletes-delete_dashboard G c d s s1 at)
      ∙ finished_back ds (deleted + 1) s1 s' all
      ∙ ap (λ k. (s', (k, none))) n

  -- A reset ends without an error exactly where the search of the folder, a GET request, has the status
  -- 200 for an answer and a body that is blank or names dashboards, and each of these, one after the
  -- other, is deleted with a DELETE request for its identifier that has the status 200 and a body for
  -- an answer; the number that it reports is theirs.
  pub reset-AllDeleted :
      (n : ℕ) (s s' : State)
      → (reset G c s ≡ (s', (n, none))) ↔ (
          (ds : List DashSearchResult) × (s1 : State) × Finds G c ds s s1
          × AllDeleted ds s1 s'
          × (n ≡ length ds))
  unfolding reset
  reset-AllDeleted n s s' = (
    λ h. there (search_folder_dashboards G c s) refl h,
    λ (ds, s1, at, all, m).
        ap (reset_of G c) (Finds-search_folder_dashboards G c ds s s1 at)
        ∙ finished_back ds 0 s1 s' all
        ∙ ap (λ k. (s', (k, none))) (omega (arith, m)),
  )
    where
      there :
          (q : State × Result AiError (List DashSearchResult))
          → search_folder_dashboards G c s ≡ q
          → reset_of G c q ≡ (s', (n, none))
          → (ds : List DashSearchResult) × (s1 : State) × Finds G c ds s s1
            × AllDeleted ds s1 s'
            × (n ≡ length ds)
      there (s1, err e) at g = absurd (cc)
      there (s1, ok ds) at g =
          let (all, m) = finished ds 0 n s1 s' g in
          (ds, s1, search_folder_dashboards-Finds G c ds s s1 at, all, omega (arith, m))
