-- ===== src/Cmd/Cut.antt =====
-- cmd/democtl/main.go: cut and restore. The docker command is a parameter.
pub mod Undo
use vikasa_demo.Base.{
  Bool, true, false, String, List, [], ◌∷◌, ◌++◌, Option, none, some, str_eq, str_append,
  if◌then◌else◌, Result, ok, err, split_on,
}
use vikasa_demo.Verify.Answers.{trim_space}
use vikasa_demo.Verify.Network.{Live, ◌>>=◌, ◌>>◌, pure}
use vikasa_demo.Verify.Docker.{
  DockerError, command_failed, no_container, no_network, cabinet_leaf_service, wan_network_key,
  is_newline,
}

pub record Docker : Type 1 where
  pub State : Type 0
  -- a command with its arguments: what it prints, unless it fails
  pub run : List String → State → State × Option String

-- the first of the lines that is not empty, or the empty text
unfoldable pub first_line : List String → String
unfolding trim_space
first_line [] = ""
first_line (line ∷ lines) =
    let rest = first_line lines in let s = trim_space line in if str_eq s "" then rest else s

unfoldable pub network_connect_args : String → String → String → String → List String
network_connect_args action network container service =
    ("network" ∷ action ∷ network ∷ [])
    ++ ((if str_eq action "connect" then "--alias" ∷ service ∷ [] else []) ++ container ∷ [])

abbrev pub container_query : String → List String
container_query service =
    "ps"
    ∷ "--filter"
    ∷ str_append "label=com.docker.compose.service=" service
    ∷ "--format"
    ∷ "{{.Names}}"
    ∷ []

abbrev pub network_query : List String
network_query =
    "network"
    ∷ "ls"
    ∷ "--filter"
    ∷ str_append "label=com.docker.compose.network=" wan_network_key
    ∷ "--format"
    ∷ "{{.Name}}"
    ∷ []

module _ (D : Docker) where
  abbrev pub Act : Type 0 → Type 0
  Act = Live D.State DockerError

  abbrev pub line_of : List String → Option String → Result DockerError String
  unfolding first_line
  line_of args none = err (command_failed args)
  line_of args (some out) = ok (first_line (split_on is_newline out))

  unfoldable pub docker_first_line : List String → Act String
  unfolding first_line
  docker_first_line args s = let (s', out) = D.run args s in (s', line_of args out)

  abbrev pub ended : List String → Option String → Result DockerError (Unit {0})
  ended args none = err (command_failed args)
  ended args (some out) = ok tt

  unfoldable pub docker_network : List String → Act (Unit {0})
  docker_network args s = let (s', out) = D.run args s in (s', ended args out)

  abbrev pub unless_empty : String → DockerError → Result DockerError (Unit {0})
  unless_empty text e = if str_eq text "" then err e else ok tt

  unfoldable pub cut_or_restore : String → String → Act (Unit {0})
  unfolding docker_first_line docker_network network_connect_args
  cut_or_restore cabinet action = do
    let service = cabinet_leaf_service cabinet
    container ← docker_first_line (container_query service)
    pure (unless_empty container (no_container service))
    network ← docker_first_line network_query
    pure (unless_empty network (no_network wan_network_key))
    docker_network (network_connect_args action network container service)
