-- ===== src/Fleet/Seed.antt =====
-- tools/gen-compose/main.go: the SQL that seeds the tables of the cabinets and their devices.
use vikasa_demo.Base.{String, List, [], ◌∷◌, ◌++◌, map, texts}
use vikasa_demo.Fleet.Artifacts.{Format, DeviceKind}
use vikasa_demo.Fleet.Cabinets.{Cabinet, Dot, Fleet}
use vikasa_demo.Fleet.Names.{ch_database}

abbrev pub device_kinds : List DeviceKind
device_kinds =
    record { id = "asc-1"; kind = "asc" }
    ∷ record { id = "cam-1"; kind = "camera" }
    ∷ record { id = "cam-2"; kind = "camera" }
    ∷ record { id = "lidar-1"; kind = "lidar" }
    ∷ record { id = "dms-1"; kind = "dms" }
    ∷ record { id = "gw"; kind = "gateway" }
    ∷ []

-- the loop of `writeRows`
unfoldable pub row_lines : List String → String
row_lines [] = ""
row_lines (r ∷ []) = texts (r ∷ ";\n" ∷ [])
row_lines (r ∷ s ∷ rs) = texts (r ∷ ",\n" ∷ row_lines (s ∷ rs) ∷ [])

unfoldable pub write_rows : List String → String
unfolding row_lines
write_rows rs = texts (row_lines rs ∷ "\n" ∷ [])

abbrev pub quoted : String → String
quoted s = texts ("'" ∷ s ∷ "'" ∷ [])

abbrev pub insert_of : String → List String → String
insert_of head [] = ""
insert_of head (r ∷ rs) = texts (head ∷ write_rows (r ∷ rs) ∷ [])

abbrev title : String → String
title s = texts (
    "-- ============================================================\n" ∷ s
    ∷ "-- ============================================================\n\n" ∷ [])

module _ (E : Format) where
  unfoldable pub cabinet_row : String → String → String → Cabinet E → String
  cabinet_row region dot district c = texts (
      "("
      ∷ quoted dot
      ∷ ", "
      ∷ quoted district
      ∷ ", "
      ∷ quoted c.id
      ∷ ", "
      ∷ quoted c.corridor
      ∷ ", "
      ∷ quoted c.route
      ∷ ", "
      ∷ quoted region
      ∷ ", "
      ∷ quoted c.vendor
      ∷ ", "
      ∷ E.format_g c.lat
      ∷ ", "
      ∷ E.format_g c.lon
      ∷ ")"
      ∷ [])

  unfoldable pub cabinet_rows : String → List (Dot E) → List String
  cabinet_rows region [] = []
  cabinet_rows region (d ∷ ds) =
      map (cabinet_row region d.dot d.district) d.cabinets ++ cabinet_rows region ds

  unfoldable pub device_row : String → String → Cabinet E → DeviceKind → String
  device_row dot district c dev = texts (
      "("
      ∷ quoted dot
      ∷ ", "
      ∷ quoted district
      ∷ ", "
      ∷ quoted c.id
      ∷ ", "
      ∷ quoted dev.id
      ∷ ", "
      ∷ quoted dev.kind
      ∷ ", "
      ∷ quoted c.vendor
      ∷ ")"
      ∷ [])

  unfoldable pub cabinet_devices : String → String → List (Cabinet E) → List String
  cabinet_devices dot district [] = []
  cabinet_devices dot district (c ∷ cs) =
      map (device_row dot district c) device_kinds ++ cabinet_devices dot district cs

  unfoldable pub device_rows : List (Dot E) → List String
  device_rows [] = []
  device_rows (d ∷ ds) = cabinet_devices d.dot d.district d.cabinets ++ device_rows ds

  unfoldable pub cabinet_insert : String → String → List (Dot E) → String
  cabinet_insert db region ds =
      insert_of
        (texts (
          "INSERT INTO " ∷ db
          ∷ ".cabinets (dot, district, cabinet_id, corridor, route, region, vendor, lat, lon) VALUES\n"
          ∷ []))
        (cabinet_rows region ds)

  unfoldable pub device_insert : String → List (Dot E) → String
  device_insert db ds =
      insert_of
        (texts (
          "INSERT INTO " ∷ db
          ∷ ".devices (dot, district, cabinet_id, device_id, device_kind, vendor) VALUES\n" ∷ []))
        (device_rows ds)

  unfoldable pub each_dot : (String → List (Dot E) → String) → List (Dot E) → String
  each_dot insert [] = ""
  each_dot insert (d ∷ ds) = texts (insert (ch_database d.dot) (d ∷ []) ∷ each_dot insert ds ∷ [])

  unfoldable pub seed_sql : Fleet E → String
  seed_sql f = texts (
      "-- GENERATED by tools/gen-compose from deploy/topology/fleet.yaml.\n"
      ∷ "-- Do not edit by hand; regenerate with `make gen-compose`.\n\n"
      ∷ title "-- cabinets\n"
      ∷ each_dot (λ db. cabinet_insert db f.region) f.dots
      ∷ cabinet_insert "vikasa_federation" f.region f.dots
      ∷ title
          "-- devices — 6 per cabinet: asc-1 (asc), cam-1/cam-2 (camera),\n-- lidar-1 (lidar), dms-1 (dms), gw (gateway); vendor matches the\n-- cabinet.\n"
      ∷ each_dot device_insert f.dots
      ∷ device_insert "vikasa_federation" f.dots
      ∷ [])
