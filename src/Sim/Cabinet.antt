-- ===== src/Sim/Cabinet.antt =====
-- cmd/cabinet-sim/main.go and `Devices.All` of internal/sim/scenario.go: the devices of a cabinet, ticked
-- one after the other on the demand that they share, and the handler of /inject.
pub mod Sends
pub mod Signals
pub mod Sensors
pub mod Signs
pub mod Served
pub mod Runs
use vikasa_demo.Base.{
  ℕ, String, Bool, true, false, Option, none, some, List, [], ◌∷◌, ◌++◌, map, if◌then◌else◌,
}
use vikasa_demo.Sim.Emitter.{Emission, Out}
use vikasa_demo.Sim.Runtime.{Runtime}
use vikasa_demo.Sim.Demand.{Demand, new_demand}
use vikasa_demo.Sim.Asc.State.{AscMsg, new_asc}
use vikasa_demo.Sim.Asc as Asc
use vikasa_demo.Sim.Asc.{Street}
use vikasa_demo.Sim.Camera as Camera
use vikasa_demo.Sim.Camera.{CameraMsg, new_camera}
use vikasa_demo.Sim.Lidar as Lidar
use vikasa_demo.Sim.Lidar.{LidarMsg, new_lidar}
use vikasa_demo.Sim.Dms as Dms
use vikasa_demo.Sim.Dms.{DmsMsg, new_dms}
use vikasa_demo.Sim.Gateway as Gateway
use vikasa_demo.Sim.Gateway.{PollerHeartbeat, new_gateway}
use vikasa_demo.Sim.Reversible as Reversible
use vikasa_demo.Sim.Reversible.{LaneStateChanged, ReversibleLane, new_reversible_lane}
use vikasa_demo.Sim.Scenario.{Devices, Kind, Timer, scenario, clear_scenario}

-- A message of any device.
pub data CabinetMsg : Type 0 where
  asc_msg : AscMsg → CabinetMsg
  camera_msg : CameraMsg → CabinetMsg
  lidar_msg : LidarMsg → CabinetMsg
  dms_msg : DmsMsg → CabinetMsg
  gateway_msg : PollerHeartbeat → CabinetMsg
  reversible_msg : LaneStateChanged → CabinetMsg

abbrev pub as_cabinet : {M : Type 0} → (M → CabinetMsg) → Emission M → Emission CabinetMsg
as_cabinet wrap e = record {
  controller = e.controller;
  ce_type = e.ce_type;
  at = e.at;
  msg = wrap e.msg;
}

abbrev pub idle : {D M : Type 0} → D → Out D M
idle d = record { dev = d; sent = [] }

-- the optional device, which is the last
abbrev pub tick_reversible :
    ℕ → Option ReversibleLane → Option ReversibleLane × List (Emission CabinetMsg)
tick_reversible now none = (none, [])
tick_reversible now (some r) =
    let o = Reversible.tick now (idle r) in (some o.dev, map (as_cabinet reversible_msg) o.sent)

module _ (N : Runtime) where
  -- the devices as `main` makes them
  unfoldable pub new_devices : ℕ → N.F → Bool → Devices N
  new_devices seed base_vph reversible = record {
    demand = new_demand N seed base_vph;
    asc = new_asc "asc-1";
    cam1 = new_camera N "cam-1" 2;
    cam2 = new_camera N "cam-2" 2;
    lidar1 = new_lidar N "lidar-1";
    dms1 = new_dms "dms-1";
    gw = new_gateway "gw";
    reversible = if reversible then some (new_reversible_lane "rev-1") else none;
  }

  -- One turn of `runTicker`: the devices after it, and what they have emitted.
  unfoldable pub tick_all : ℕ → Devices N → Devices N × List (Emission CabinetMsg)
  tick_all now s =
      let street =
        Asc.tick N now (record { demand = s.demand; unit = record { asc = s.asc; sent = [] } }) in
      let cam1 = Camera.tick N street.demand now (idle s.cam1) in
      let cam2 = Camera.tick N street.demand now (idle s.cam2) in
      let lidar1 = Lidar.tick N street.demand now (idle s.lidar1) in
      let dms1 = Dms.tick N (some street.demand) now (idle s.dms1) in
      let gw = Gateway.tick now (idle s.gw) in
      let rev = tick_reversible now s.reversible in
      (
        record {
          demand = street.demand;
          asc = street.unit.asc;
          cam1 = cam1.dev;
          cam2 = cam2.dev;
          lidar1 = lidar1.dev;
          dms1 = dms1.dev;
          gw = gw.dev;
          reversible = rev.0;
        },
        map (as_cabinet asc_msg) street.unit.sent
            ++ (map (as_cabinet camera_msg) cam1.sent
                ++ (map (as_cabinet camera_msg) cam2.sent
                    ++ (map (as_cabinet lidar_msg) lidar1.sent
                        ++ (map (as_cabinet dms_msg) dms1.sent
                            ++ (map (as_cabinet gateway_msg) gw.sent ++ rev.1))))),
      )

  -- What happens to a cabinet: the ticker fires, a scenario is posted, the timer of one runs out.
  pub data Happening : Type 0 where
    ticked : ℕ → Happening
    posted : String → Happening
    expired : Kind → Happening

  -- The answer to a POST of /inject/{scenario}: Accepted or Not Found.
  abbrev pub status : {A : Type 0} → Option A → ℕ
  status none = 404
  status (some _) = 202

  abbrev pub devices_or : Devices N → Option (Devices N × Timer N) → Devices N
  devices_or s none = s
  devices_or s (some (t, _)) = t

  unfoldable pub inject : String → Devices N → ℕ × Devices N
  inject name s = let r = scenario N name s in (status r, devices_or s r)

  unfoldable pub happen : Happening → Devices N → Devices N × List (Emission CabinetMsg)
  unfolding tick_all inject
  happen (ticked now) s = tick_all now s
  happen (posted name) s = ((inject name s).1, [])
  happen (expired k) s = (clear_scenario N k s, [])

  -- All that a cabinet emits.
  unfoldable pub emitted : List Happening → Devices N → List (Emission CabinetMsg)
  emitted [] s = []
  emitted (h ∷ hs) s = let (t, es) = happen h s in es ++ emitted hs t
