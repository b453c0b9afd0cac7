-- ===== src/Fleet/Tour.antt =====
-- internal/tour/fleet.go: the ports of the simulators and the cabinets of the corridor, as the tour
-- derives them from the file of the fleet.
use vikasa_demo.Base.{
  ℕ, ◌+◌, ◌||◌, String, List, [], ◌∷◌, ◌++◌, if◌then◌else◌, Dict, put, is_nonempty, string_eq,
  Result, ok, err, ◌>>=◌,
}
use vikasa_demo.Fleet.Size.{Size, resolve, is_set}
use vikasa_demo.Fleet.Artifacts.{Format}
use vikasa_demo.Fleet.Cabinets.{Cabinet, Dot, Fleet, is_kept}

pub record FleetInfo : Type 0 where
  pub sim_ports : Dict String ℕ
  pub corridor_cabinets : List String

pub data TourError : Type 0 where
  bad_size : String → TourError
  no_cabinets : TourError

abbrev pub of_size : Result String Size → Result TourError Size
of_size (ok s) = ok s
of_size (err s) = err (bad_size s)

module _ (E : Format) where
  -- the body of the inner loop, for a cabinet that is kept, with `port` as it is before it
  unfoldable pub walk_cabinet : Cabinet E → ℕ → FleetInfo → FleetInfo
  walk_cabinet c port info = record {
    sim_ports =
        if is_set c.corridor || c.expose then put c.id port info.sim_ports else info.sim_ports;
    corridor_cabinets =
        if is_set c.corridor then info.corridor_cabinets ++ c.id ∷ [] else info.corridor_cabinets;
  }

  unfoldable pub walk_cabinets : Size → List (Cabinet E) → ℕ → FleetInfo → ℕ × FleetInfo
  unfolding walk_cabinet
  walk_cabinets size [] port info = (port, info)
  walk_cabinets size (c ∷ cs) port info =
      walk_cabinets size cs
        (if is_kept E size c
          then (if is_set c.corridor || c.expose then port + 1 else port)
          else port)
        (if is_kept E size c then walk_cabinet c port info else info)

  unfoldable pub walk_dots : Size → List (Dot E) → ℕ → FleetInfo → FleetInfo
  unfolding walk_cabinets
  walk_dots size [] port info = info
  walk_dots size (d ∷ ds) port info =
      let (port', info') = walk_cabinets size d.cabinets port info in walk_dots size ds port' info'

  unfoldable pub fleet_info : Size → Fleet E → FleetInfo
  unfolding walk_dots
  fleet_info size f =
      walk_dots size f.dots 18081 (record { sim_ports = []; corridor_cabinets = [] })

  -- LoadFleetInfo, of a fleet that was read and parsed
  unfoldable pub load_fleet_info : (String → String) → Fleet E → Result TourError FleetInfo
  unfolding resolve fleet_info
  load_fleet_info env f = do
    size ← of_size (resolve env)
    let info = fleet_info size f
    if is_nonempty info.sim_ports then ok info else err no_cabinets
