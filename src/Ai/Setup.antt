-- ===== src/Ai/Setup.antt =====
-- internal/ai/setup.go: the folder of the assistant, its account and its token.
use vikasa_demo.Base.{
  ◌==◌, Bool, true, false, ◌||◌, String, List, [], ◌∷◌, Option, none, some, str_eq, if◌then◌else◌,
  texts, ℤ, pos, Result, ok, err, str_append,
}
use vikasa_demo.Verify.Network.{◌>>=◌, ◌>>◌, pure}
use vikasa_demo.Ai.Grafana.{
  folder_uid, folder_title, sa_name, token_name, readonly_ch_user, readonly_ch_password,
  folder_edit_permission, no_body, folder_body, account_body, permission_body, token_body, Named,
  AiError, no_account, Grafana, Client, Act, do_request, ignored, expect_status,
}

pub record SetupResult : Type 0 where
  pub grafana_url : String
  pub grafana_api_key : String
  pub click_house_host : String
  pub click_house_port : String

abbrev pub env_block : SetupResult → String
env_block r = texts (
    "GRAFANA_URL=" ∷ r.grafana_url ∷ "\nGRAFANA_SERVICE_ACCOUNT_TOKEN=" ∷ r.grafana_api_key
    ∷ "\nGRAFANA_API_KEY=" ∷ r.grafana_api_key ∷ "\nCLICKHOUSE_HOST=" ∷ r.click_house_host
    ∷ "\nCLICKHOUSE_PORT=" ∷ r.click_house_port ∷ "\nCLICKHOUSE_USER=" ∷ readonly_ch_user
    ∷ "\nCLICKHOUSE_PASSWORD=" ∷ readonly_ch_password ∷ "\n" ∷ [])

module _ (G : Grafana) where
  open G use {print_int}

  unfoldable pub ensure_folder : Client → Act G (Unit {0})
  unfolding do_request
  ensure_folder c = do
    (status, _) ←
        do_request G c "POST" "/api/folders" (folder_body folder_uid folder_title) (ignored G) tt
    pure (
        expect_status G (status == 200 || status == 201 || status == 409 || status == 412)
          "create folder" status)

  unfoldable pub named_id : String → List Named → Option ℤ
  named_id name [] = none
  named_id name (a ∷ rest) =
      let later = named_id name rest in if str_eq a.name name then some a.id else later

  unfoldable pub find_service_account_by_name : Client → String → Act G (Option ℤ)
  unfolding do_request named_id
  find_service_account_by_name c name = do
    (status, accounts) ←
        do_request G c "GET" (str_append "/api/serviceaccounts/search?query=" name) no_body
          G.decode_accounts []
    pure (expect_status G (status == 200) "search service accounts" status)
    pure (ok (named_id name accounts))

  abbrev pub found : Option ℤ → Result AiError ℤ
  found none = err no_account
  found (some id) = ok id

  abbrev pub existing_account : Client → Act G ℤ
  existing_account c = do existing ← find_service_account_by_name c sa_name; pure (found existing)

  abbrev pub id_or_existing : Client → Bool → ℤ → Act G ℤ
  id_or_existing c true id = pure (ok id)
  id_or_existing c false id = existing_account c

  -- any other answer than a created account is followed by the search
  unfoldable pub ensure_service_account : Client → Act G ℤ
  unfolding do_request find_service_account_by_name
  ensure_service_account c = do
    (status, id) ←
        do_request G c "POST" "/api/serviceaccounts" (account_body sa_name "None") G.decode_id
          (pos 0)
    id_or_existing c (status == 200 || status == 201) id

  unfoldable pub grant_folder_editor : Client → ℤ → Act G (Unit {0})
  unfolding do_request
  grant_folder_editor c sa_id = do
    (status, _) ←
        do_request G c "POST" (texts ("/api/folders/" ∷ folder_uid ∷ "/permissions" ∷ []))
          (permission_body sa_id folder_edit_permission) (ignored G) tt
    pure (expect_status G (status == 200) "grant folder editor" status)

  abbrev pub tokens_path : ℤ → String
  tokens_path sa_id = texts ("/api/serviceaccounts/" ∷ print_int sa_id ∷ "/tokens" ∷ [])

  unfoldable pub delete_token : Client → ℤ → Named → Act G (Unit {0})
  unfolding do_request
  delete_token c sa_id t = do
    (status, _) ←
        do_request G c "DELETE" (texts (tokens_path sa_id ∷ "/" ∷ print_int t.id ∷ [])) no_body
          (ignored G) tt
    pure (expect_status G (status == 200) "delete stale token" status)

  -- the loop over the tokens of the account
  unfoldable pub delete_tokens : Client → ℤ → List Named → Act G (Unit {0})
  unfolding delete_token
  delete_tokens c sa_id [] = pure (ok tt)
  delete_tokens c sa_id (t ∷ ts) =
      let rest = delete_tokens c sa_id ts in
      if str_eq t.name token_name then delete_token c sa_id t >> rest else rest

  unfoldable pub ensure_service_account_token : Client → ℤ → Act G String
  unfolding do_request delete_tokens
  ensure_service_account_token c sa_id = do
    (status, tokens) ← do_request G c "GET" (tokens_path sa_id) no_body G.decode_tokens []
    pure (expect_status G (status == 200) "list tokens" status)
    delete_tokens c sa_id tokens
    (created, key) ←
        do_request G c "POST" (tokens_path sa_id) (token_body token_name) G.decode_key ""
    pure (expect_status G (created == 200) "create token" created)
    pure (ok key)

  unfoldable pub setup : Client → String → String → String → Act G SetupResult
  unfolding ensure_folder ensure_service_account grant_folder_editor ensure_service_account_token
  setup c grafana_url ch_host ch_port = do
    ensure_folder c
    sa_id ← ensure_service_account c
    grant_folder_editor c sa_id
    token ← ensure_service_account_token c sa_id
    pure (
        ok (record {
          grafana_url = grafana_url;
          grafana_api_key = token;
          click_house_host = ch_host;
          click_house_port = ch_port;
        }))
