-- ===== src/Verify/Docker.antt =====
-- internal/verify/docker.go: the containers that `docker compose ps` lists, and the network that a cut
-- acts on. The JSON of a line is decoded by a parameter. An error is told apart by where it is made.
pub mod Resolution
pub mod Service
use vikasa_demo.Base.{
  Bool, true, false, ◌||◌, ◌&&◌, not, String, Char, code, List, [], ◌∷◌, Option, none, some, str_eq,
  str_append, texts, if◌then◌else◌, Result, ok, err, ◌>>=◌, ◌==◌, split_on,
}
use vikasa_demo.Verify.Answers.{trim_space}

-- the service of the cabinet's own server
abbrev pub cabinet_leaf_service : String → String
cabinet_leaf_service cabinet = texts ("mardot-" ∷ cabinet ∷ "-nats" ∷ [])

pub record ComposeContainer : Type 0 where
  pub name : String
  pub service : String
  pub networks : String
  pub project : String

pub data DockerError : Type 0 where
  bad_line service_missing network_unresolved : String → DockerError
  -- of cmd/democtl: a command that fails, and an answer without a line
  command_failed : List String → DockerError
  no_container no_network : String → DockerError

abbrev pub is_newline : Char → Bool
is_newline c = code c == 10

abbrev pub decoded_line : String → Option ComposeContainer → Result DockerError ComposeContainer
decoded_line line none = err (bad_line line)
decoded_line line (some c) = ok c

-- the loop over the lines: the empty ones are passed over, the first that cannot be read is the error
unfoldable pub parse_lines :
    (String → Option ComposeContainer) → List String → Result DockerError (List ComposeContainer)
unfolding trim_space
parse_lines decode [] = ok []
parse_lines decode (raw ∷ lines) =
    let rest = parse_lines decode lines in
    let line = trim_space raw in
    if str_eq line "" then rest else do c ← decoded_line line (decode line); cs ← rest; ok (c ∷ cs)

unfoldable pub parse_compose_ps_all :
    (String → Option ComposeContainer) → String → Result DockerError (List ComposeContainer)
unfolding parse_lines
parse_compose_ps_all decode output = parse_lines decode (split_on is_newline (trim_space output))

unfoldable pub find_service : List ComposeContainer → String → Result DockerError ComposeContainer
find_service [] service = err (service_missing service)
find_service (c ∷ cs) service =
    let rest = find_service cs service in if str_eq c.service service then ok c else rest

unfoldable pub parse_compose_ps :
    (String → Option ComposeContainer) → String → String → Result DockerError ComposeContainer
unfolding parse_compose_ps_all find_service
parse_compose_ps decode output service = do
  containers ← parse_compose_ps_all decode output
  find_service containers service

abbrev pub wan_network_key : String
wan_network_key = "vikasa"

-- strings.HasSuffix
unfoldable pub has_suffix : String → String → Bool
has_suffix suffix String.[] = str_eq "" suffix
has_suffix suffix (String.◌∷◌ c s) =
    let rest = has_suffix suffix s in str_eq (String.◌∷◌ c s) suffix || rest

abbrev pub is_network : String → String → Bool
is_network key name = str_eq name key || has_suffix (str_append "_" key) name

-- the loop over the names that a container has
unfoldable pub match_names : List String → String → Option String
match_names [] key = none
match_names (raw ∷ names) key =
    let rest = match_names names key in
    let name = trim_space raw in
    if str_eq name "" then rest else if is_network key name then some name else rest

abbrev pub is_comma : Char → Bool
is_comma c = code c == 44

unfoldable pub match_network : ComposeContainer → String → Option String
unfolding match_names
match_network c key = match_names (split_on is_comma c.networks) key

-- the loop over the other containers
unfoldable pub match_siblings : List ComposeContainer → String → String → Option String
unfolding match_network
match_siblings [] target key = none
match_siblings (c ∷ cs) target key =
    let rest = match_siblings cs target key in
    if str_eq c.name target
    then rest
    else elim (match_network c key) [ none ↦ rest | some name ↦ some name ]

abbrev pub resolved : String → Option String → Result DockerError String
resolved key none = err (network_unresolved key)
resolved key (some name) = ok name

unfoldable pub resolve_network :
    List ComposeContainer → ComposeContainer → String → Result DockerError String
unfolding match_network match_siblings
resolve_network containers target key = elim (match_network target key) [
  | some name ↦ ok name
  | none ↦ resolved key (match_siblings containers target.name key)
]
