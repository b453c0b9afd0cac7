-- ===== src/Ai/Grafana.antt =====
-- internal/ai/client.go and internal/ai/setup.go: the client of Grafana and the reset of the
-- assistant's folder. Grafana, JSON and the requests are a parameter; an error is told
-- apart by where it is made.
pub mod Answers
pub mod Resets
use vikasa_demo.Base.{
  ℕ, ◌+◌, ◌==◌, Bool, true, false, ◌||◌, not, Char, code, String, List, [], ◌∷◌, Option, none, some,
  str_eq, if◌then◌else◌, texts, ℤ, pos, Result, ok, err, str_append,
}
use vikasa_demo.Verify.Answers.{trim_space, trim_right}
use vikasa_demo.Verify.Network.{Reply, unbuilt, unsent, answered, Live, ◌>>=◌, ◌>>◌, pure}

abbrev pub folder_uid : String
folder_uid = "ai-built"

abbrev pub folder_title : String
folder_title = "AI Built"

abbrev pub sa_name : String
sa_name = "ai-dashboard-builder"

abbrev pub token_name : String
token_name = "demo"

abbrev pub readonly_ch_user : String
readonly_ch_user = "ai_readonly"

abbrev pub readonly_ch_password : String
readonly_ch_password = "vikasa-ai"

abbrev pub folder_edit_permission : ℕ
folder_edit_permission = 2

-- the bodies of the requests, before they are JSON
pub data Body : Type 0 where
  no_body : Body
  folder_body : (uid title : String) → Body
  account_body : (name role : String) → Body
  permission_body : (user_id : ℤ) (permission : ℕ) → Body
  token_body : (name : String) → Body

-- serviceAccountSearchResult and saToken
pub record Named : Type 0 where
  pub id : ℤ
  pub name : String

pub record DashSearchResult : Type 0 where
  pub id : ℤ
  pub uid : String
  pub title : String

pub data AiError : Type 0 where
  bad_request no_response unread : AiError
  -- a response of a status that cannot be decoded, and a status that is not expected, of an action
  undecodable : ℕ → AiError
  unexpected : String → ℕ → AiError
  no_account no_dashboard no_queries bad_dashboard : AiError
  all_empty : AiError
  queries_failed : ℕ → AiError

pub record Grafana : Type 1 where
  pub State : Type 0
  -- the method, the user, the URL and the body
  pub request : String → String → String → Body → State → State × Reply
  pub print_int : ℤ → String
  pub decode_id : String → Option ℤ
  pub decode_accounts : String → Option (List Named)
  pub decode_tokens : String → Option (List Named)
  pub decode_key : String → Option String
  pub decode_results : String → Option (List DashSearchResult)
  -- the field `dashboard` of a response, as its text
  pub decode_envelope : String → Option String

pub record Client : Type 0 where
  pub base_url : String
  pub user : String

abbrev is_slash : Char → Bool
is_slash c = code c == 47

unfoldable pub new_client : String → String → Client
new_client base_url user = record { base_url = trim_right is_slash base_url; user = user }

module _ (G : Grafana) where
  open G use {State, request, print_int}

  abbrev pub Act : Type 0 → Type 0
  Act = Live State AiError

  abbrev pub undecoded : {A : Type 0} → ℕ → Option A → Result AiError (ℕ × A)
  undecoded status none = err (undecodable status)
  undecoded status (some a) = ok (status, a)

  -- an empty body leaves the value as it was
  unfoldable pub read_response :
      {A : Type 0} → (String → Option A) → A → Reply → Result AiError (ℕ × A)
  unfolding trim_space
  read_response decode zero_value unbuilt = err bad_request
  read_response decode zero_value unsent = err no_response
  read_response decode zero_value (answered status none) = err unread
  read_response decode zero_value (answered status (some body)) =
      if str_eq (trim_space body) ""
      then ok (status, zero_value)
      else undecoded status (decode body)

  unfoldable pub do_request :
      {A : Type 0} → Client → String → String → Body → (String → Option A) → A → Act (ℕ × A)
  unfolding read_response
  do_request c method path body decode zero_value s =
      let (s', reply) = request method c.user (str_append c.base_url path) body s in
      (s', read_response decode zero_value reply)

  -- where nothing is decoded
  abbrev pub ignored : String → Option (Unit {0})
  ignored body = some tt

  abbrev pub expect_status : Bool → String → ℕ → Result AiError (Unit {0})
  expect_status as_expected action status =
      if as_expected then ok tt else err (unexpected action status)

  unfoldable pub search_folder_dashboards : Client → Act (List DashSearchResult)
  unfolding do_request
  search_folder_dashboards c = do
    (status, results) ←
        do_request c "GET" (texts ("/api/search?folderUIDs=" ∷ folder_uid ∷ "&type=dash-db" ∷ []))
          no_body G.decode_results []
    pure (expect_status (status == 200) "search folder" status)
    pure (ok results)

  unfoldable pub delete_dashboard : Client → DashSearchResult → Act (Unit {0})
  unfolding do_request
  delete_dashboard c d = do
    (status, _) ← do_request c "DELETE" (str_append "/api/dashboards/uid/" d.uid) no_body ignored tt
    pure (expect_status (status == 200) "delete dashboard" status)

  -- the loop of Reset: how many are deleted, and the error that ended it
  unfoldable pub delete_dashboards :
      Client → List DashSearchResult → ℕ → State → State × (ℕ × Option AiError)
  unfolding delete_dashboard
  delete_dashboards c [] deleted s = (s, (deleted, none))
  delete_dashboards c (d ∷ ds) deleted s =
      let (s', r) = delete_dashboard c d s in
      elim r [ err e ↦ (s', (deleted, some e)) | ok done ↦ delete_dashboards c ds (deleted + 1) s' ]

  abbrev pub reset_of :
      Client → State × Result AiError (List DashSearchResult) → State × (ℕ × Option AiError)
  reset_of c (s, err e) = (s, (0, some e))
  reset_of c (s, ok results) = delete_dashboards c results 0 s

  unfoldable pub reset : Client → State → State × (ℕ × Option AiError)
  unfolding search_folder_dashboards delete_dashboards
  reset c s = reset_of c (search_folder_dashboards c s)
