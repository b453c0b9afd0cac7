-- ===== src/Sim/Tests/Scenarios.antt =====
-- A scenario at a concrete cabinet.
use vikasa_demo.Base.{◌*◌, ◌≤◌, ◌≡◌, refl, none, some, get, string_eq}
use vikasa_demo.Sim.Emitter.{second}
use vikasa_demo.Sim.Tests.{thousandths, demand}
use vikasa_demo.Sim.Asc.State.{new_asc}
use vikasa_demo.Sim.Camera.{new_camera}
use vikasa_demo.Sim.Lidar.{new_lidar}
use vikasa_demo.Sim.Dms.{new_dms}
use vikasa_demo.Sim.Gateway.{new_gateway}
use vikasa_demo.Sim.Scenario.{
  Devices, corridor_incident, inject_scenario, clear_scenario, kind_of, scenario,
}
use vikasa_demo.Sim.Scenario.Undo.{IsQuiet, AgreesWith, scenario_undone}

abbrev cabinet : Devices thousandths
cabinet = record {
  demand = demand;
  asc = new_asc "asc-1";
  cam1 = new_camera thousandths "cam-1" 2;
  cam2 = new_camera thousandths "cam-2" 2;
  lidar1 = new_lidar thousandths "lidar-1";
  dms1 = new_dms "dms-1";
  gw = new_gateway "gw";
  reversible = none;
}

cabinet-IsQuiet : IsQuiet thousandths cabinet
unfolding get new_asc new_camera new_lidar
cabinet-IsQuiet = record { flash = refl; detector = refl; camera = refl; lidar = refl }

injected :
    scenario thousandths "corridor-incident" cabinet
    ≡ some (
      inject_scenario thousandths corridor_incident cabinet,
      record { after = 120 * second; clears = corridor_incident },
    )
unfolding scenario kind_of
injected = refl

scenario_undone_example :
    AgreesWith thousandths cabinet (
      clear_scenario thousandths corridor_incident
        (inject_scenario thousandths corridor_incident cabinet))
    × (120 * second ≤ 120 * second)
scenario_undone_example =
    scenario_undone thousandths "corridor-incident" cabinet
      (inject_scenario thousandths corridor_incident cabinet)
      (record { after = 120 * second; clears = corridor_incident }) cabinet-IsQuiet injected
