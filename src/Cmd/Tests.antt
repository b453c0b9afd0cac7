-- ===== src/Cmd/Tests.antt =====
-- The programs at concrete inputs.
mod Touring
use vikasa_demo.Base.{
  Bool, true, false, String, List, [], ◌∷◌, Option, none, some, str_eq, if◌then◌else◌, ok, ◌≡◌, ◌↔◌,
  refl, ap, sym, split_on, ◌++◌,
}
use vikasa_demo.Verify.Answers.{trim_space, is_space}
use vikasa_demo.Verify.Docker.{
  ComposeContainer, cabinet_leaf_service, is_newline, resolve_network, resolved, is_network,
}
use vikasa_demo.Verify.Docker.Resolution.{
  attached, attached_siblings, first_of, resolve_network-first,
}
use vikasa_demo.Verify.Docker.Service.{cabinet_leaf_service-leaf_service}
use vikasa_demo.Fleet.Names.{leaf_service}
use vikasa_demo.Cmd.Cut.{Docker, container_query, network_query, first_line, cut_or_restore}
use vikasa_demo.Cmd.Cut.Undo.{Daemon, cut_or_restore-undone}

-- a server that is attached to its network, or not
abbrev answer : List String → Bool → Bool × Option String
answer (a ∷ b ∷ rest) s =
    if str_eq a "ps"
    then (s, some "compose-mardot-cab-i85-001-nats-1\n")
    else if str_eq b "ls"
    then (s, some "vikasa-demo_vikasa\n")
    else (str_eq b "connect", some "")
answer _ s = (s, none)

abbrev docker : Docker
docker = record { State = Bool; run = answer }

abbrev daemon : Daemon docker
daemon = record {
  Attached = λ network container alias s. s ≡ true;
  Detached = λ network container s. s ≡ false;
  lists_containers = λ service s. refl;
  lists_networks = λ s. refl;
  keeps_containers = λ service network container s. refl;
  keeps_networks = λ network container s. refl;
  leaves = λ network container alias s h. ("", refl, refl);
  joins = λ network container alias s h. ("", refl, refl);
}

cut_or_restore-undone_example :
    let (s1, cut) = cut_or_restore docker "cab-i85-001" "disconnect" true in
    let (s2, restored) = cut_or_restore docker "cab-i85-001" "connect" s1 in
    (cut ≡ ok tt) × (s1 ≡ false) × (restored ≡ ok tt) × (s2 ≡ true)
unfolding first_line trim_space is_space split_on
cut_or_restore-undone_example =
    cut_or_restore-undone docker daemon "cab-i85-001" "compose-mardot-cab-i85-001-nats-1"
      "vikasa-demo_vikasa" "compose-mardot-cab-i85-001-nats-1\n" "vikasa-demo_vikasa\n" true refl
      refl refl refl refl refl refl

abbrev sim : ComposeContainer
sim = record {
  name = "sim-1";
  service = "cab-i85-001-sim";
  networks = "demo_cab-i85-001-net";
  project = "demo";
}

abbrev central : ComposeContainer
central = record {
  name = "central-1";
  service = "mardot-central";
  networks = "demo_other, demo_vikasa";
  project = "demo";
}

resolve_network-first_example :
    resolve_network (sim ∷ central ∷ []) sim "vikasa"
    ≡ resolved "vikasa" (
        first_of
          (is_network "vikasa")
          (attached sim ++ attached_siblings (sim ∷ central ∷ []) sim.name))
resolve_network-first_example = resolve_network-first (sim ∷ central ∷ []) sim "vikasa"

cabinet_leaf_service-leaf_service_example :
    (cabinet_leaf_service "cab-v1" ≡ leaf_service "veldot" "cab-v1")
    ↔ (◌≡◌ {A = String} "veldot" "mardot")
cabinet_leaf_service-leaf_service_example = cabinet_leaf_service-leaf_service "veldot" "cab-v1"
