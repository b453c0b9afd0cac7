-- ===== src/Tour/Table.antt =====
-- internal/tour/phases.go: the configuration of the tour, and the table of its phases.
pub mod Cabinets
use vikasa_demo.Base.{
  ℕ, String, List, [], ◌∷◌, Option, none, some, if◌then◌else◌, str_eq, Result, ok, err, get,
  string_eq,
}
use vikasa_demo.Verify.Queries.{database}
use vikasa_demo.Fleet.Tour.{FleetInfo, TourError}
use vikasa_demo.Tour.Stage.{Stage, inject_scenario, run_democtl}
use vikasa_demo.Tour.Phase.{Phase}
use vikasa_demo.Tour.Phases.{
  baseline_assert, wan_cut_assert, restore_assert, fault_assert, corridor_assert, reversible_assert,
}

pub record Config : Type 0 where
  pub ch : String
  pub grafana : String
  pub compose_file : String
  pub fleet_path : String
  pub dot : String

abbrev pub or_default : String → String → String
or_default s default = if str_eq s "" then default else s

unfoldable pub with_defaults : Config → Config
with_defaults c = record {
  ch = or_default c.ch "http://localhost:8123";
  grafana = or_default c.grafana "http://localhost:3000";
  compose_file = or_default c.compose_file "deploy/compose/docker-compose.yml";
  fleet_path = or_default c.fleet_path "deploy/topology/fleet.yaml";
  dot = or_default c.dot "mardot";
}

abbrev pub cut_cabinet : String
cut_cabinet = "cab-i85-001"

abbrev pub fault_cabinet : String
fault_cabinet = "cab-002"

-- an unreadable fleet, or a cabinet that it does not have
pub data BuildError : Type 0 where
  unreadable : TourError → BuildError
  missing : String → BuildError

module _ (T : Stage) where
  unfoldable pub phase_table : Config → ℕ → ℕ → List String → List (Phase T)
  unfolding baseline_assert wan_cut_assert restore_assert fault_assert corridor_assert
      reversible_assert run_democtl inject_scenario
  phase_table c cut_port fault_port corridor_cabinets =
      let db = database c.dot in
      record {
        name = "baseline";
        action = none;
        settle = 0;
        assertion = some (baseline_assert T c.ch);
      }
      ∷ record {
        name = "wan-cut";
        action = some (
            run_democtl T
              ("cut" ∷ "--cabinet" ∷ cut_cabinet ∷ "--compose-file" ∷ c.compose_file ∷ []));
        settle = 90;
        assertion = some (wan_cut_assert T c.ch db cut_cabinet cut_port);
      }
      ∷ record {
        name = "restore";
        action = some (
            run_democtl T
              ("restore" ∷ "--cabinet" ∷ cut_cabinet ∷ "--compose-file" ∷ c.compose_file ∷ []));
        settle = 60;
        assertion = some (restore_assert T c.ch db cut_cabinet);
      }
      ∷ record {
        name = "fault";
        action = some (inject_scenario T fault_port "conflict-flash");
        settle = 20;
        assertion = some (fault_assert T c.ch db fault_cabinet);
      }
      ∷ record {
        name = "corridor";
        action = some (inject_scenario T cut_port "corridor-incident");
        settle = 20;
        assertion = some (corridor_assert T c.ch c.dot cut_cabinet corridor_cabinets);
      }
      ∷ record {
        name = "reversible";
        action = none;
        settle = 20;
        assertion = some (reversible_assert T c.ch db);
      }
      ∷ []

  unfoldable pub with_fault_port :
      Config → FleetInfo → ℕ → Option ℕ → Result BuildError (List (Phase T))
  unfolding phase_table
  with_fault_port c fleet cut_port none = err (missing fault_cabinet)
  with_fault_port c fleet cut_port (some fault_port) =
      ok (phase_table c cut_port fault_port fleet.corridor_cabinets)

  abbrev pub with_cut_port : Config → FleetInfo → Option ℕ → Result BuildError (List (Phase T))
  with_cut_port c fleet none = err (missing cut_cabinet)
  with_cut_port c fleet (some cut_port) =
      with_fault_port c fleet cut_port (get fault_cabinet fleet.sim_ports)

  -- BuildPhases, from what LoadFleetInfo returns for the configuration's path
  unfoldable pub build_phases :
      Config → Result TourError FleetInfo → Result BuildError (List (Phase T))
  unfolding with_defaults
  build_phases c (err e) = err (unreadable e)
  build_phases c (ok fleet) =
      with_cut_port (with_defaults c) fleet (get cut_cabinet fleet.sim_ports)
