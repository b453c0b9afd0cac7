-- ===== src/Cmd/Cut/Undo.antt =====
-- A cut of cmd/democtl and the restore after it. What is relied on of docker is a record.
use vikasa_demo.Base.{false, String, List, [], ◌∷◌, some, str_eq, ◌≡◌, ◌∙◌, ok, split_on}
use vikasa_demo.Verify.Docker.{cabinet_leaf_service, is_newline}
use vikasa_demo.Cmd.Cut.{
  Docker, container_query, network_query, first_line, network_connect_args, docker_first_line,
  docker_network, cut_or_restore,
}

-- the commands that change an attachment
abbrev pub disconnect : String → String → List String
disconnect network container = "network" ∷ "disconnect" ∷ network ∷ container ∷ []

abbrev pub connect : String → String → String → List String
connect network container alias =
    "network" ∷ "connect" ∷ network ∷ "--alias" ∷ alias ∷ container ∷ []

-- Docker's own listings and attachments. Listing the containers or the networks of a label changes
-- nothing, and what is listed does not depend on the attachments. A container that is attached can be
-- disconnected and is then detached; one that is detached can be connected, with an alias that the
-- command gives, and is then attached under it. What else changes is left open: an endpoint and an
-- address may be new.
pub record Daemon (D : Docker) : Type 1 where
  -- of a network, a container and an alias that it has there
  pub Attached : String → String → String → D.State → Type 0
  -- of a network and a container that can be attached to it and is not
  pub Detached : String → String → D.State → Type 0
  pub lists_containers :
      (service : String) (s : D.State) → (D.run (container_query service) s).0 ≡ s
  pub lists_networks : (s : D.State) → (D.run network_query s).0 ≡ s
  pub keeps_containers :
      (service network container : String) (s : D.State)
      → (D.run (container_query service) (D.run (disconnect network container) s).0).1
        ≡ (D.run (container_query service) s).1
  pub keeps_networks :
      (network container : String) (s : D.State)
      → (D.run network_query (D.run (disconnect network container) s).0).1
        ≡ (D.run network_query s).1
  pub leaves :
      (network container alias : String) (s : D.State)
      → Attached network container alias s
      → (out : String) × ((D.run (disconnect network container) s).1 ≡ some out)
        × Detached network container (D.run (disconnect network container) s).0
  pub joins :
      (network container alias : String) (s : D.State)
      → Detached network container s
      → (out : String) × ((D.run (connect network container alias) s).1 ≡ some out)
        × Attached network container alias (D.run (connect network container alias) s).0

module _ (D : Docker) (L : Daemon D) where
  open L use {
    Attached, lists_containers, lists_networks, keeps_containers, keeps_networks, leaves, joins,
    Detached,
  }

  -- Where the listings give a container and a network, the command acts on these.
  acts_on :
      (cabinet action container network c_out n_out : String) (s : D.State)
      → (D.run (container_query (cabinet_leaf_service cabinet)) s).1 ≡ some c_out
      → (D.run network_query s).1 ≡ some n_out
      → first_line (split_on is_newline c_out) ≡ container
      → first_line (split_on is_newline n_out) ≡ network
      → str_eq container "" ≡ false
      → str_eq network "" ≡ false
      → cut_or_restore D cabinet action s
        ≡ docker_network D
            (network_connect_args action network container (cabinet_leaf_service cabinet))
            s
  unfolding cut_or_restore docker_first_line
  acts_on cabinet action container network c_out n_out s c n c_line n_line c_there n_there = rw (
    c,
    c_line,
    c_there,
    lists_containers (cabinet_leaf_service cabinet) s,
    n,
    n_line,
    n_there,
    lists_networks s,
  )

  -- Where the listings give a container of the cabinet's service and a network of the key, and the
  -- container is attached to the network under the name of its service, a cut ends well and detaches
  -- this container from this network, and a restore after it ends well and attaches it to the network
  -- under the name of its service again.
  pub cut_or_restore-undone :
      (cabinet container network c_out n_out : String) (s : D.State)
      → (D.run (container_query (cabinet_leaf_service cabinet)) s).1 ≡ some c_out
      → (D.run network_query s).1 ≡ some n_out
      → first_line (split_on is_newline c_out) ≡ container
      → first_line (split_on is_newline n_out) ≡ network
      → str_eq container "" ≡ false
      → str_eq network "" ≡ false
      → Attached network container (cabinet_leaf_service cabinet) s
      → let (s1, cut) = cut_or_restore D cabinet "disconnect" s in
        let (s2, restored) = cut_or_restore D cabinet "connect" s1 in
        (cut ≡ ok tt)
        × Detached network container s1
        × (restored ≡ ok tt)
        × Attached network container (cabinet_leaf_service cabinet) s2
  unfolding docker_network network_connect_args
  cut_or_restore-undone cabinet container network c_out n_out s c n c_line n_line c_there n_there
        at =
      let service = cabinet_leaf_service cabinet in
      let cut = (D.run (disconnect network container) s).0 in
      let acts =
        acts_on cabinet "disconnect" container network c_out n_out s c n c_line n_line c_there
          n_there in
      let acts_again =
        acts_on cabinet "connect" container network c_out n_out cut
          (keeps_containers service network container s ∙ c)
          (keeps_networks network container s ∙ n) c_line n_line c_there n_there in
      let (out, left, detached) = leaves network container service s at in
      let (out', back, attached) = joins network container service cut detached in
      (
        rw (acts, left),
        rw acts detached,
        rw (acts, acts_again, back),
        rw (acts, acts_again) attached,
      )
