-- ===== src/Sim/Scenario.antt =====
-- internal/sim/scenario.go: the scenarios that can be injected into a cabinet. What is scheduled for
-- later is a value that `clear_scenario` runs.
pub mod Undo
use vikasa_demo.Base.{
  ℕ, ◌*◌, String, str_eq, Bool, true, false, Option, none, some, if◌then◌else◌, pos,
}
use vikasa_demo.Sim.Emitter.{second}
use vikasa_demo.Sim.Runtime.{Runtime}
use vikasa_demo.Sim.Demand.{Demand, set_incident}
use vikasa_demo.Sim.Gateway.{Gateway}
use vikasa_demo.Sim.Reversible.{ReversibleLane}
use vikasa_demo.Sim.Dms.{Dms, post_advisory, clear_advisory}
use vikasa_demo.Sim.Asc.State.{Asc, inject_fault, clear_fault, set_ped_cadence_multiplier}
use vikasa_demo.Sim.Camera as Camera
use vikasa_demo.Sim.Camera.{Camera}
use vikasa_demo.Sim.Lidar as Lidar
use vikasa_demo.Sim.Lidar.{Lidar}

abbrev pub corridor_incident_id : String
corridor_incident_id = "inc-1"

pub data Kind : Type 0 where
  conflict_flash detector_fault corridor_incident ped_surge : Kind

-- the `switch` over the name
unfoldable pub kind_of : String → Option Kind
kind_of name =
    if str_eq name "conflict-flash"
    then some conflict_flash
    else if str_eq name "detector-fault"
    then some detector_fault
    else if str_eq name "corridor-incident"
    then some corridor_incident
    else if str_eq name "ped-surge"
    then some ped_surge
    else none

-- conflictFlashClearAfter and the others
abbrev pub clear_after : Kind → ℕ
clear_after conflict_flash = 90 * second
clear_after detector_fault = 60 * second
clear_after corridor_incident = 120 * second
clear_after ped_surge = 120 * second

module _ (N : Runtime) where
  pub record Devices : Type 0 where
    pub demand : Demand N
    pub asc : Asc
    pub cam1 : Camera N
    pub cam2 : Camera N
    pub lidar1 : Lidar N
    pub dms1 : Dms
    pub gw : Gateway
    pub reversible : Option ReversibleLane

  unfoldable pub inject_scenario : Kind → Devices → Devices
  inject_scenario conflict_flash s = record s { asc = inject_fault "conflict-flash" s.asc }
  inject_scenario detector_fault s = record s { asc = inject_fault "detector-fault" s.asc }
  inject_scenario corridor_incident s =
      let d0 = set_incident N true s.demand in
      let (cam1, d1) = Camera.inject_incident N corridor_incident_id s.cam1 d0 in
      let (lidar1, d2) = Lidar.inject_incident N corridor_incident_id s.lidar1 d1 in
      record s { demand = d2; cam1 = cam1; lidar1 = lidar1; dms1 = post_advisory s.dms1 }
  inject_scenario ped_surge s = record s { asc = set_ped_cadence_multiplier (pos 3) s.asc }

  -- What time.AfterFunc runs once `clear_after` has passed.
  unfoldable pub clear_scenario : Kind → Devices → Devices
  clear_scenario conflict_flash s = record s { asc = clear_fault "conflict-flash" s.asc }
  clear_scenario detector_fault s = record s { asc = clear_fault "detector-fault" s.asc }
  clear_scenario corridor_incident s =
      let (cam1, d0) = Camera.clear_incident N corridor_incident_id s.cam1 s.demand in
      let (lidar1, d1) = Lidar.clear_incident N corridor_incident_id s.lidar1 d0 in
      record s {
        demand = set_incident N false d1;
        cam1 = cam1;
        lidar1 = lidar1;
        dms1 = clear_advisory s.dms1;
      }
  clear_scenario ped_surge s = record s { asc = set_ped_cadence_multiplier (pos 1) s.asc }

  -- A clear that is due, or an error for an unknown name.
  pub record Timer : Type 0 where
    pub after : ℕ
    pub clears : Kind

  abbrev pub started : Devices → Option Kind → Option (Devices × Timer)
  started s none = none
  started s (some k) = some (inject_scenario k s, record { after = clear_after k; clears = k })

  unfoldable pub scenario : String → Devices → Option (Devices × Timer)
  scenario name s = started s (kind_of name)
