-- ===== src/Ai/Grafana/Answers.antt =====
-- What Grafana has answered where a call of internal/ai/client.go ends without an error.
use vikasa_demo.Base.{
  ℕ, ◌==◌, String, List, [], ◌∷◌, Option, none, some, Result, ok, ◌≡◌, refl, ap, ◌∙◌, sym, arith,
  str_append, str_eq, texts, Bool-cases, inl, inr, if◌then◌else◌, if-cases, Option-cases,
}
use vikasa_demo.Verify.Answers.{trim_space}
use vikasa_demo.Verify.Network.{Reply, unbuilt, unsent, answered, ◌>>◌, pure, >>=-ok}
use vikasa_demo.Ai.Grafana.{
  no_body, folder_uid, AiError, Grafana, Client, DashSearchResult, delete_dashboard, do_request,
  read_response, ignored, expect_status, search_folder_dashboards,
}

module _ (G : Grafana) where
  open G use {State, request}

  -- An answer with status 200, and what its body decodes to, where a blank one gives a value that is
  -- set before.
  abbrev pub Gives : {A : Type 0} → (String → Option A) → A → Reply → A → Type 0
  Gives {A} decode zero_value reply a =
      (body : String) × (reply ≡ answered 200 (some body))
      × (if str_eq (trim_space body) "" then a ≡ zero_value else decode body ≡ some a)

  ok_pair :
      {A : Type 0} (m n : ℕ) (a b : A)
      → ◌≡◌ {A = Result AiError (ℕ × A)} (ok (m, a)) (ok (n, b))
      → (m ≡ n) × (a ≡ b)
  ok_pair {A} m n a b e =
      let p : ◌≡◌ {A = ℕ × A} (m, a) (n, b) = cc in (ap (λ x. x.0) p, ap (λ x. x.1) p)

  pub given :
      {A : Type 0} (decode : String → Option A) (zero_value : A) (reply : Reply) (a : A)
      → read_response G decode zero_value reply ≡ ok (200, a)
      → Gives decode zero_value reply a
  unfolding read_response
  given decode zero_value unbuilt a e = absurd (cc)
  given decode zero_value unsent a e = absurd (cc)
  given decode zero_value (answered n none) a e = absurd (cc)
  given decode zero_value (answered n (some body)) a e =
      elim (Bool-cases (str_eq (trim_space body) "")) [
        | inl f ↦
            let (p, q) = ok_pair n 200 zero_value a (rw f at e) in
            (body, ap (λ m. answered m (some body)) p, rw f (sym q))
        | inr f ↦ elim (Option-cases (decode body)) [
          | inl d ↦ let g = rw (f, d) at e in absurd (cc)
          | inr (x, d) ↦
              let (p, q) = ok_pair n 200 x a (rw (f, d) at e) in
              (body, ap (λ m. answered m (some body)) p, rw f (d ∙ ap some q))
        ]
      ]

  given_back :
      {A : Type 0} (decode : String → Option A) (zero_value : A) (reply : Reply) (a : A)
      → Gives decode zero_value reply a
      → read_response G decode zero_value reply ≡ ok (200, a)
  unfolding read_response
  given_back decode zero_value reply a (body, e, h) =
      ap (read_response G decode zero_value) e ∙ elim (Bool-cases (str_eq (trim_space body) "")) [
        | inl f ↦ let q = rw f at h in rw (f, q) refl
        | inr f ↦ let q = rw f at h in rw (f, q) refl
      ]

  -- the deletion of a dashboard, with its request
  abbrev pub Deletes : Client → DashSearchResult → State → State → Type 0
  Deletes c d s s' =
      (body : String) × (request "DELETE" c.user
          (str_append c.base_url (str_append "/api/dashboards/uid/" d.uid)) no_body s
        ≡ (s', answered 200 (some body)))

  -- the dashboards that a search of the folder finds, with its request
  abbrev pub Finds : Client → List DashSearchResult → State → State → Type 0
  Finds c ds s s' =
      (reply : Reply) × (request "GET" c.user
          (str_append c.base_url
            (texts ("/api/search?folderUIDs=" ∷ folder_uid ∷ "&type=dash-db" ∷ [])))
          no_body s
        ≡ (s', reply))
      × Gives G.decode_results [] reply ds

  pub search_folder_dashboards-Finds :
      (c : Client) (ds : List DashSearchResult) (s s' : State)
      → search_folder_dashboards G c s ≡ (s', ok ds)
      → Finds c ds s s'
  unfolding search_folder_dashboards do_request
  search_folder_dashboards-Finds c ds s s' h =
      let url = texts ("/api/search?folderUIDs=" ∷ folder_uid ∷ "&type=dash-db" ∷ []) in
      let (s1, reply) = request "GET" c.user (str_append c.base_url url) no_body s in
      let ((status, results), r, k) =
        >>=-ok {S = State} {E = AiError} (do_request G c "GET" url no_body G.decode_results [])
          (λ (status, results).
            pure (expect_status G (status == 200) "search folder" status) >> pure (ok results))
          s s' ds h in
      elim (Bool-cases (status == 200)) [
        | inl e ↦
            let g = rw e at k in
            let n : status ≡ 200 = ground (arith, e) in
            let last : results ≡ ds = (let f = ap (λ y. y.1) g in cc) in
            (
              reply,
              ap (λ y. (y.0, reply)) g,
              given G.decode_results [] reply ds
                  (r ∙ ap (λ m. ok (m, results)) n ∙ ap (λ y. ok (200, y)) last),
            )
        | inr e ↦ let g = rw e at k in absurd (let f = ap (λ y. y.1) g in cc)
      ]

  pub delete_dashboard-Deletes :
      (c : Client) (d : DashSearchResult) (s s' : State)
      → delete_dashboard G c d s ≡ (s', ok tt)
      → Deletes c d s s'
  unfolding delete_dashboard do_request
  delete_dashboard-Deletes c d s s' h =
      let url = str_append "/api/dashboards/uid/" d.uid in
      let (s1, reply) = request "DELETE" c.user (str_append c.base_url url) no_body s in
      let ((status, u), r, k) =
        >>=-ok {S = State} {E = AiError} (do_request G c "DELETE" url no_body (ignored G) tt)
          (λ (status, u). pure (expect_status G (status == 200) "delete dashboard" status)) s s' tt
          h in
      elim (Bool-cases (status == 200)) [
        | inl e ↦
            let g = rw e at k in
            let n : status ≡ 200 = ground (arith, e) in
            let (body, f, _) = given (ignored G) tt reply u (r ∙ ap (λ m. ok (m, u)) n) in
            (body, ap (λ y. (y.0, reply)) g ∙ ap (λ y. (s', y)) f)
        | inr e ↦ let g = rw e at k in absurd (let f = ap (λ y. y.1) g in cc)
      ]

  pub Finds-search_folder_dashboards :
      (c : Client) (ds : List DashSearchResult) (s s' : State)
      → Finds c ds s s'
      → search_folder_dashboards G c s ≡ (s', ok ds)
  unfolding search_folder_dashboards do_request
  Finds-search_folder_dashboards c ds s s' (reply, at, gives) =
      rw (at, given_back G.decode_results [] reply ds gives) refl

  pub Deletes-delete_dashboard :
      (c : Client) (d : DashSearchResult) (s s' : State)
      → Deletes c d s s'
      → delete_dashboard G c d s ≡ (s', ok tt)
  unfolding delete_dashboard do_request
  Deletes-delete_dashboard c d s s' (body, at) =
      let gives : Gives (ignored G) tt (answered 200 (some body)) tt =
        (body, refl, if-cases (λ y. y) (str_eq (trim_space body) "") _ _ (λ _. refl) (λ _. refl)) in
      rw (at, given_back (ignored G) tt (answered 200 (some body)) tt gives) refl
