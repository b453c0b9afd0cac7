-- ===== src/Fleet/Cabinets.antt =====
-- tools/gen-compose/main.go: the fleet as its file has it, and the filter by size.
use vikasa_demo.Base.{Bool, ◌||◌, String, List, [], ◌∷◌, ℤ, if◌then◌else◌}
use vikasa_demo.Fleet.Size.{Size, keep, is_set}
use vikasa_demo.Fleet.Artifacts.{Format}

module _ (E : Format) where
  pub record Cabinet : Type 0 where
    pub id : String
    pub vendor : String
    pub corridor : String
    pub route : String
    pub lat : E.Float
    pub lon : E.Float
    pub seed : ℤ
    pub base_vph : E.Float
    pub expose : Bool
    pub reversible : Bool

  pub record Dot : Type 0 where
    pub dot : String
    pub district : String
    pub cabinets : List Cabinet

  pub record Fleet : Type 0 where
    pub region : String
    pub dots : List Dot

  abbrev pub is_hero : Cabinet → Bool
  is_hero c = is_set c.corridor

  unfoldable pub port_mapped : Cabinet → Bool
  port_mapped c = is_set c.corridor || c.expose

  unfoldable pub is_kept : Size → Cabinet → Bool
  is_kept size c = keep size c.corridor c.route c.expose

  -- the loops at the start of `run`
  unfoldable pub kept_cabinets : Size → List Cabinet → List Cabinet
  kept_cabinets size [] = []
  kept_cabinets size (c ∷ cs) =
      let rest = kept_cabinets size cs in if is_kept size c then c ∷ rest else rest

  abbrev pub kept_dots : Size → List Dot → List Dot
  kept_dots size [] = []
  kept_dots size (d ∷ ds) =
      record d { cabinets = kept_cabinets size d.cabinets } ∷ kept_dots size ds

  unfoldable pub kept_fleet : Size → Fleet → Fleet
  kept_fleet size f = record f { dots = kept_dots size f.dots }
