-- ===== src/Fleet/Compose.antt =====
-- tools/gen-compose/main.go: the data of the compose file, with the host ports, and the targets of
-- Prometheus.
use vikasa_demo.Base.{ℕ, ◌+◌, String, List, [], ◌∷◌, ◌++◌, map, if◌then◌else◌, texts}
use vikasa_demo.Fleet.Artifacts.{Format, ComposeCabinet, ComposeData, PromTargetGroup}
use vikasa_demo.Fleet.Cabinets.{Cabinet, Dot, Fleet, is_hero, port_mapped}
use vikasa_demo.Fleet.Names.{
  leaf_service, conf_name, sim_service, sim_conf_name, cabinet_net, central_stream_name,
  sink_filter, ch_database,
}

abbrev pub first_sim_port : ℕ
first_sim_port = 18081

abbrev pub first_sink_port : ℕ
first_sink_port = 19091

module _ (E : Format) where
  -- one turn of the inner loop: `simPort` is taken by a cabinet that has a port
  unfoldable pub compose_cabinet : String → ℕ → Cabinet E → ComposeCabinet
  compose_cabinet dot port c = record {
    hero = is_hero E c;
    port_mapped = port_mapped E c;
    leaf_service = leaf_service dot c.id;
    conf_name = conf_name dot c.id;
    data_volume = if is_hero E c then texts (dot ∷ "-" ∷ c.id ∷ "-data" ∷ []) else "";
    net_name = if is_hero E c then cabinet_net c.id else "";
    sim_service = sim_service c.id;
    sim_conf_name = sim_conf_name dot c.id;
    sim_port = if port_mapped E c then port else 0;
  }

  abbrev pub next_port : Cabinet E → ℕ → ℕ
  next_port c port = if port_mapped E c then port + 1 else port

  -- The loop over the cabinets of a department: those of the file, and `simPort` after them.
  unfoldable pub compose_cabinets : String → ℕ → List (Cabinet E) → List ComposeCabinet × ℕ
  compose_cabinets dot port [] = ([], port)
  compose_cabinets dot port (c ∷ cs) =
      let (rest, after) = compose_cabinets dot (next_port c port) cs in
      (compose_cabinet dot port c ∷ rest, after)

  abbrev pub hero_names : (ComposeCabinet → String) → List ComposeCabinet → List String
  hero_names f [] = []
  hero_names f (c ∷ cs) = let rest = hero_names f cs in if c.hero then f c ∷ rest else rest

  abbrev pub tier_volumes : String → List String
  tier_volumes dot =
      texts (dot ∷ "-regional-data" ∷ [])
      ∷ texts (dot ∷ "-central-data" ∷ [])
      ∷ texts (dot ∷ "-dmz-data" ∷ [])
      ∷ []

  abbrev pub add_dot : Dot E → ℕ → List ComposeCabinet → ComposeData → ComposeData
  add_dot d index cs rest = record {
    networks = hero_names (λ (c : ComposeCabinet). c.net_name) cs ++ rest.networks;
    volumes =
        tier_volumes d.dot ++ hero_names (λ (c : ComposeCabinet). c.data_volume) cs ++ rest.volumes;
    dots =
        record {
          dot = d.dot;
          cabinets = cs;
          sink_stream = central_stream_name E d.dot d.district;
          sink_filter = sink_filter d.dot;
          sink_database = ch_database d.dot;
          sink_port = first_sink_port + index;
        }
        ∷ rest.dots;
    dot_names = d.dot ∷ rest.dot_names;
  }

  -- The loop over the departments, from an index and a `simPort` on.
  unfoldable pub compose_dots : ℕ → ℕ → List (Dot E) → ComposeData
  unfolding compose_cabinets
  compose_dots index port [] = record { networks = []; volumes = []; dots = []; dot_names = [] }
  compose_dots index port (d ∷ ds) =
      let (cs, after) = compose_cabinets d.dot port d.cabinets in
      add_dot d index cs (compose_dots (index + 1) after ds)

  unfoldable pub compose_data : Fleet E → ComposeData
  unfolding compose_dots
  compose_data f = compose_dots 0 first_sim_port f.dots

  unfoldable pub tier_targets : List (Dot E) → List String
  tier_targets [] = []
  tier_targets (d ∷ ds) =
      texts (d.dot ∷ "-regional-exporter:7777" ∷ [])
      ∷ texts (d.dot ∷ "-central-exporter:7777" ∷ [])
      ∷ texts (d.dot ∷ "-dmz-exporter:7777" ∷ [])
      ∷ tier_targets ds

  unfoldable pub cabinet_targets : String → List (Cabinet E) → List String
  cabinet_targets dot [] = []
  cabinet_targets dot (c ∷ cs) =
      let rest = cabinet_targets dot cs in
      if is_hero E c then texts (leaf_service dot c.id ∷ "-exporter:7777" ∷ []) ∷ rest else rest

  unfoldable pub hero_targets : List (Dot E) → List String
  hero_targets [] = []
  hero_targets (d ∷ ds) = cabinet_targets d.dot d.cabinets ++ hero_targets ds

  abbrev pub sink_target : Dot E → String
  sink_target d = texts (d.dot ∷ "-sink:9091" ∷ [])

  unfoldable pub prometheus_targets : Fleet E → List PromTargetGroup
  unfolding tier_targets hero_targets
  prometheus_targets f =
      record { targets = tier_targets f.dots; labels = ("job", "nats") ∷ [] }
      ∷ record { targets = hero_targets f.dots; labels = ("job", "nats-cabinet") ∷ [] }
      ∷ record {
        targets = map sink_target f.dots ++ "federation-sink:9091" ∷ [];
        labels = ("job", "sinks") ∷ [];
      }
      ∷ []
