-- ===== src/Fleet/Confs.antt =====
-- tools/gen-compose/main.go: the configuration files of the NATS servers and of the simulators, and
-- the inventories. A file is its path and its content, in the order in which they are written.
use vikasa_demo.Base.{String, List, [], ◌∷◌, ◌++◌, map, texts}
use vikasa_demo.Fleet.Artifacts.{Format, Inventory, InventoryCabinet}
use vikasa_demo.Fleet.Cabinets.{Cabinet, Dot}
use vikasa_demo.Fleet.Names.{js_domain, subject_filter, leaf_service, conf_name, sim_conf_name}

abbrev pub File : Type 0
File = String × String

-- "server_name" to "jetstream", which the templates begin with
abbrev server_conf : String → String → String
server_conf name domain = texts (
    "server_name: " ∷ name ∷ "\nport: 4222\nhttp_port: 8222\njetstream { domain: \"" ∷ domain
    ∷ "\", store_dir: \"/data\" }\n" ∷ [])

abbrev remote_of : String → String → String
remote_of host port =
    texts ("  remotes = [ { urls: [\"nats://" ∷ host ∷ ":" ∷ port ∷ "\"] } ]\n" ∷ [])

unfoldable pub cabinet_conf : String → String → String
cabinet_conf dot domain = texts (
    server_conf domain domain
    ∷ "leafnodes {\n"
    ∷ remote_of (texts (dot ∷ "-regional" ∷ [])) "7422"
    ∷ "}\n"
    ∷ [])

unfoldable pub regional_conf : String → String
regional_conf dot = texts (
    server_conf (texts (dot ∷ "-regional" ∷ [])) "d1a"
    ∷ "leafnodes {\n  port: 7422\n"
    ∷ remote_of (texts (dot ∷ "-central" ∷ [])) "7422"
    ∷ "}\n"
    ∷ [])

unfoldable pub central_conf : String → String
central_conf dot =
    texts (server_conf (texts (dot ∷ "-central" ∷ [])) "core" ∷ "leafnodes { port: 7422 }\n" ∷ [])

unfoldable pub dmz_conf : String → String
dmz_conf dot = texts (
    server_conf (texts (dot ∷ "-dmz" ∷ [])) "dmz"
    ∷ "leafnodes {\n"
    ∷ remote_of (texts (dot ∷ "-central" ∷ [])) "7422"
    ∷ "}\n"
    ∷ [])

module _ (E : Format) where
  open E use {Float, print_float, print_int, print_bool, join_path, encode_inventory}

  unfoldable pub cabinet_confs : String → String → String → List (Cabinet E) → List File
  cabinet_confs dot district dir [] = []
  cabinet_confs dot district dir (c ∷ cs) =
      (join_path dir (conf_name dot c.id), cabinet_conf dot (js_domain dot district c.id))
      ∷ cabinet_confs dot district dir cs

  unfoldable pub dot_confs : String → Dot E → List File
  dot_confs dir d =
      (join_path dir (conf_name d.dot "regional"), regional_conf d.dot)
      ∷ (join_path dir (conf_name d.dot "central"), central_conf d.dot)
      ∷ (join_path dir (conf_name d.dot "dmz"), dmz_conf d.dot)
      ∷ cabinet_confs d.dot d.district dir d.cabinets

  unfoldable pub nats_confs : String → List (Dot E) → List File
  nats_confs dir [] = []
  nats_confs dir (d ∷ ds) = dot_confs dir d ++ nats_confs dir ds

  unfoldable pub sim_conf : String → String → Cabinet E → String
  sim_conf dot district c = texts (
      "dot: "
      ∷ dot
      ∷ "\ndistrict: "
      ∷ district
      ∷ "\ncabinet: "
      ∷ c.id
      ∷ "\nvendor: "
      ∷ c.vendor
      ∷ "\nseed: "
      ∷ print_int c.seed
      ∷ "\nbase_vph: "
      ∷ print_float c.base_vph
      ∷ "\nnats_url: nats://"
      ∷ leaf_service dot c.id
      ∷ ":4222\nhttp_addr: \":8080\"\nreversible: "
      ∷ print_bool c.reversible
      ∷ "\n"
      ∷ [])

  unfoldable pub cabinet_sims : String → String → String → List (Cabinet E) → List File
  cabinet_sims dot district dir [] = []
  cabinet_sims dot district dir (c ∷ cs) =
      (join_path dir (sim_conf_name dot c.id), sim_conf dot district c)
      ∷ cabinet_sims dot district dir cs

  unfoldable pub sim_confs : String → List (Dot E) → List File
  sim_confs dir [] = []
  sim_confs dir (d ∷ ds) = cabinet_sims d.dot d.district dir d.cabinets ++ sim_confs dir ds

  unfoldable pub inventory_cabinet : String → String → Cabinet E → InventoryCabinet
  inventory_cabinet dot district c = record {
    id = js_domain dot district c.id;
    partition = texts (district ∷ "/0" ∷ []);
    filter = subject_filter dot district c.id;
  }

  unfoldable pub inventory : Dot E → Inventory
  inventory d = record {
    dot = d.dot;
    cabinets = map (inventory_cabinet d.dot d.district) d.cabinets;
  }

  unfoldable pub inventories : String → List (Dot E) → List File
  inventories dir [] = []
  inventories dir (d ∷ ds) =
      (join_path dir (texts (d.dot ∷ "-cabinets.json" ∷ [])), encode_inventory (inventory d))
      ∷ inventories dir ds
