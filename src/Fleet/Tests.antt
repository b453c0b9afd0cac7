-- ===== src/Fleet/Tests.antt =====
-- A fleet of two departments, for the tests.
mod Writing
use vikasa_demo.Base.{
  ℕ, ◌≡◌, refl, true, false, String, [], ◌∷◌, texts, pos, arith, put, string_eq, map,
}
use vikasa_demo.Fleet.Size.{small, medium, large, keep}
use vikasa_demo.Fleet.Artifacts.{Format}
use vikasa_demo.Fleet.Cabinets.{Cabinet, Fleet, kept_fleet, port_mapped, is_kept}
use vikasa_demo.Fleet.Compose.{compose_data, compose_dots, tier_targets, hero_targets}
use vikasa_demo.Fleet.Confs.{nats_confs, sim_confs}
use vikasa_demo.Fleet.Tour.{fleet_info}
use vikasa_demo.Fleet.Ports.Agreement.{compose_ports, with_service, sim_ports_agree}
use vikasa_demo.Fleet.Ports.Distinct.{host_ports, IsIncreasing, host_ports-IsIncreasing, mapped}
use vikasa_demo.Fleet.Ports.Sizes.{compose_ports_medium}
use vikasa_demo.Fleet.Consistency.{
  targets_are_exporters, mounted_files_written, tier_exporters, cabinet_exporters, at_metrics_port,
  mounted_confs, mounted_sims, paths,
}

abbrev pub plain : Format
plain = record {
  Float = ℕ;
  format_g = λ x. "1.5";
  print_float = λ x. "1.5";
  print_int = λ x. "7";
  print_bool = λ b. "false";
  to_upper = λ s. s;
  join_path = λ p s. texts (p ∷ "/" ∷ s ∷ []);
  dir = λ p. "deploy";
  encode_inventory = λ i. i.dot;
  encode_targets = λ t. "[]";
  render_compose = λ d. "services:";
}

abbrev pub cabinet : String → String → String → Cabinet plain
cabinet id corridor route = record {
  id = id;
  vendor = "acme";
  corridor = corridor;
  route = route;
  lat = 33;
  lon = 84;
  seed = pos 7;
  base_vph = 900;
  expose = false;
  reversible = false;
}

abbrev pub fleet : Fleet plain
fleet = record {
  region = "southeast";
  dots =
      record {
        dot = "mardot";
        district = "d7";
        cabinets =
            cabinet "cab-i85-001" "i85" "i85"
            ∷ cabinet "cab-2" "" "i85"
            ∷ cabinet "cab-3" "" ""
            ∷ record (cabinet "cab-002" "" "") { expose = true }
            ∷ [];
      }
      ∷ record {
        dot = "palmdot";
        district = "d1";
        cabinets = cabinet "cab-5" "" "" ∷ cabinet "cab-6" "i85" "i85" ∷ [];
      }
      ∷ [];
}

large_ports :
    (fleet_info plain large fleet).sim_ports
    ≡ ("cab-i85-001", 18081) ∷ ("cab-002", 18082) ∷ ("cab-6", 18083) ∷ []
unfolding fleet_info is_kept keep put
large_ports = refl

sim_ports_agree_example :
    compose_ports plain (compose_data plain (kept_fleet plain small fleet)).dots
    ≡ map (with_service plain) (fleet_info plain small fleet).sim_ports
sim_ports_agree_example = sim_ports_agree plain small fleet (
  (refl, (refl, (refl, (refl, (refl, tt))))),
  (
    (refl, (refl, (refl, (refl, tt)))),
    ((refl, (refl, (refl, tt))), ((refl, (refl, tt)), ((refl, tt), (tt, tt)))),
  ),
)

host_ports-IsIncreasing_example : IsIncreasing 18081 (host_ports plain (compose_data plain fleet))
unfolding mapped port_mapped
host_ports-IsIncreasing_example = host_ports-IsIncreasing plain fleet (omega arith) (omega arith)

targets_are_exporters_example :
    (tier_targets plain fleet.dots
      ≡ map at_metrics_port (tier_exporters (compose_dots plain 0 18081 fleet.dots).dots))
    × (hero_targets plain fleet.dots
        ≡ map at_metrics_port (cabinet_exporters (compose_dots plain 0 18081 fleet.dots).dots))
targets_are_exporters_example = targets_are_exporters plain 0 18081 fleet.dots
