-- ===== src/Fleet/Consistency.antt =====
-- What the generated files of tools/gen-compose say of each other.
use vikasa_demo.Base.{
  ℕ, ◌+◌, ◌≡◌, refl, sym, ap, ◌∙◌, String, List, [], ◌∷◌, ◌++◌, if◌then◌else◌, map, map-append,
  texts, str_append, Bool-cases, inl, inr,
}
use text.Mathlib.TextLemmas.{append-nil, append_assoc}
use vikasa_demo.Fleet.Artifacts.{Format, ComposeCabinet, ComposeDot}
use vikasa_demo.Fleet.Cabinets.{Cabinet, Dot, is_hero}
use vikasa_demo.Fleet.Names.{conf_name, leaf_service, sim_conf_name}
use vikasa_demo.Fleet.Confs.{File, cabinet_confs, dot_confs, nats_confs, cabinet_sims, sim_confs}
use vikasa_demo.Fleet.Compose.{
  next_port, compose_cabinet, compose_cabinets, compose_dots, tier_targets, cabinet_targets,
  hero_targets,
}

abbrev exporter : ComposeCabinet → String
exporter c = texts (c.leaf_service ∷ "-exporter" ∷ [])

-- The names of the exporters in the compose file: three for each department, and one for each hero.
abbrev pub tier_exporters : List ComposeDot → List String
tier_exporters [] = []
tier_exporters (d ∷ ds) =
    texts (d.dot ∷ "-regional-exporter" ∷ [])
    ∷ texts (d.dot ∷ "-central-exporter" ∷ [])
    ∷ texts (d.dot ∷ "-dmz-exporter" ∷ [])
    ∷ tier_exporters ds

unfoldable hero_exporters : List ComposeCabinet → List String
hero_exporters [] = []
hero_exporters (c ∷ cs) = let rest = hero_exporters cs in if c.hero then exporter c ∷ rest else rest

unfoldable pub cabinet_exporters : List ComposeDot → List String
unfolding hero_exporters
cabinet_exporters [] = []
cabinet_exporters (d ∷ ds) = hero_exporters d.cabinets ++ cabinet_exporters ds

-- the target of an exporter
abbrev pub at_metrics_port : String → String
at_metrics_port name = str_append name ":7777"

at_metrics_port_lem :
    (a b : String) → at_metrics_port (texts (a ∷ b ∷ [])) ≡ texts (a ∷ str_append b ":7777" ∷ [])
at_metrics_port_lem a b =
    append_assoc a (str_append b "") ":7777"
    ∙ ap (λ x. str_append a (str_append x ":7777")) (append-nil b)
    ∙ ap (str_append a) (sym (append-nil (str_append b ":7777")))

-- The files that the compose file mounts into the servers, and into the simulators.
unfoldable pub mounted_confs : (String → String) → List ComposeDot → List String
mounted_confs path [] = []
mounted_confs path (d ∷ ds) =
    (path (conf_name d.dot "regional")
      ∷ path (conf_name d.dot "central")
      ∷ path (conf_name d.dot "dmz")
      ∷ map (λ (c : ComposeCabinet). path c.conf_name) d.cabinets)
    ++ mounted_confs path ds

unfoldable pub mounted_sims : (String → String) → List ComposeDot → List String
mounted_sims path [] = []
mounted_sims path (d ∷ ds) =
    map (λ (c : ComposeCabinet). path c.sim_conf_name) d.cabinets ++ mounted_sims path ds

abbrev pub paths : List File → List String
paths = map (λ (f : File). f.0)

module _ (E : Format) where
  cabinet_targets_lem :
      (dot : String) (port : ℕ) (cs : List (Cabinet E))
      → cabinet_targets E dot cs
        ≡ map at_metrics_port (hero_exporters (compose_cabinets E dot port cs).0)
  unfolding cabinet_targets hero_exporters compose_cabinets compose_cabinet
  cabinet_targets_lem dot port [] = refl
  cabinet_targets_lem dot port (c ∷ cs) =
      let rest = cabinet_targets_lem dot (next_port E c port) cs in
      elim (Bool-cases (is_hero E c)) [
        | inl h ↦ rw (h, rest, at_metrics_port_lem (leaf_service dot c.id) "-exporter") refl
        | inr h ↦ rw h rest
      ]

  -- The targets of Prometheus for the tiers and for the cabinets are the exporters that the compose file
  -- names, each once and in the same order, with the port of their metrics.
  pub targets_are_exporters :
      (index port : ℕ) (ds : List (Dot E))
      → (tier_targets E ds
          ≡ map at_metrics_port (tier_exporters (compose_dots E index port ds).dots))
        × (hero_targets E ds
            ≡ map at_metrics_port (cabinet_exporters (compose_dots E index port ds).dots))
  unfolding tier_targets hero_targets compose_dots cabinet_exporters
  targets_are_exporters index port [] = (refl, refl)
  targets_are_exporters index port (d ∷ ds) =
      let (cs, after) = compose_cabinets E d.dot port d.cabinets in
      let (a, b) = targets_are_exporters (index + 1) after ds in
      let tier = λ (name : String). at_metrics_port_lem d.dot name in
      (
        rw (a, tier "-regional-exporter", tier "-central-exporter", tier "-dmz-exporter") refl,
        ap (λ l. l ++ hero_targets E ds) (cabinet_targets_lem d.dot port d.cabinets)
            ∙ ap (λ l. map at_metrics_port (hero_exporters cs) ++ l) b
            ∙ sym (
                map-append at_metrics_port (hero_exporters cs)
                  (cabinet_exporters (compose_dots E (index + 1) after ds).dots)),
      )

  cabinet_confs_lem :
      (dot district dir : String) (port : ℕ) (cs : List (Cabinet E))
      → map (λ (c : ComposeCabinet). E.join_path dir c.conf_name) (compose_cabinets E dot port cs).0
        ≡ paths (cabinet_confs E dot district dir cs)
  unfolding cabinet_confs compose_cabinets compose_cabinet
  cabinet_confs_lem dot district dir port [] = refl
  cabinet_confs_lem dot district dir port (c ∷ cs) =
      ap (λ l. E.join_path dir (conf_name dot c.id) ∷ l)
        (cabinet_confs_lem dot district dir (next_port E c port) cs)

  cabinet_sims_lem :
      (dot district dir : String) (port : ℕ) (cs : List (Cabinet E))
      → map
          (λ (c : ComposeCabinet). E.join_path dir c.sim_conf_name)
          (compose_cabinets E dot port cs).0
        ≡ paths (cabinet_sims E dot district dir cs)
  unfolding cabinet_sims compose_cabinets compose_cabinet
  cabinet_sims_lem dot district dir port [] = refl
  cabinet_sims_lem dot district dir port (c ∷ cs) =
      ap (λ l. E.join_path dir (sim_conf_name dot c.id) ∷ l)
        (cabinet_sims_lem dot district dir (next_port E c port) cs)

  -- The configuration files that the compose file mounts into the servers and into the simulators are
  -- those that are written for them: none is missing, and none is written for nothing.
  pub mounted_files_written :
      (dir : String) (index port : ℕ) (ds : List (Dot E))
      → (mounted_confs (E.join_path dir) (compose_dots E index port ds).dots
          ≡ paths (nats_confs E dir ds))
        × (mounted_sims (E.join_path dir) (compose_dots E index port ds).dots
            ≡ paths (sim_confs E dir ds))
  unfolding mounted_confs mounted_sims nats_confs dot_confs sim_confs compose_dots
  mounted_files_written dir index port [] = (refl, refl)
  mounted_files_written dir index port (d ∷ ds) =
      let (cs, after) = compose_cabinets E d.dot port d.cabinets in
      let (a, b) = mounted_files_written dir (index + 1) after ds in
      let path = E.join_path dir in
      (
        ap
              (λ (l : List String).
                (path (conf_name d.dot "regional")
                  ∷ path (conf_name d.dot "central")
                  ∷ path (conf_name d.dot "dmz")
                  ∷ l)
                ++ mounted_confs path (compose_dots E (index + 1) after ds).dots)
              (cabinet_confs_lem d.dot d.district dir port d.cabinets)
            ∙ ap (λ l. paths (dot_confs E dir d) ++ l) a
            ∙ sym (map-append (λ (f : File). f.0) (dot_confs E dir d) (nats_confs E dir ds)),
        ap (λ l. l ++ mounted_sims path (compose_dots E (index + 1) after ds).dots)
              (cabinet_sims_lem d.dot d.district dir port d.cabinets)
            ∙ ap (λ l. paths (cabinet_sims E d.dot d.district dir d.cabinets) ++ l) b
            ∙ sym (
                map-append (λ (f : File). f.0) (cabinet_sims E d.dot d.district dir d.cabinets)
                  (sim_confs E dir ds)),
      )
