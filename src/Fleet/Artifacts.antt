-- ===== src/Fleet/Artifacts.antt =====
-- tools/gen-compose/main.go: the data of the generated files, and what they take from Go: numbers in
-- text, upper case, file names, JSON, and the execution of the compose file's template on its data.
use vikasa_demo.Base.{ℕ, Bool, String, List, ℤ, Dict}

pub record InventoryCabinet : Type 0 where
  pub id : String
  pub partition : String
  pub filter : String

pub record Inventory : Type 0 where
  pub dot : String
  pub cabinets : List InventoryCabinet

pub record DeviceKind : Type 0 where
  pub id : String
  pub kind : String

pub record ComposeCabinet : Type 0 where
  pub hero : Bool
  pub port_mapped : Bool
  pub leaf_service : String
  pub conf_name : String
  pub data_volume : String
  pub net_name : String
  pub sim_service : String
  pub sim_conf_name : String
  pub sim_port : ℕ

pub record ComposeDot : Type 0 where
  pub dot : String
  pub cabinets : List ComposeCabinet
  pub sink_stream : String
  pub sink_filter : String
  pub sink_database : String
  pub sink_port : ℕ

pub record ComposeData : Type 0 where
  pub networks : List String
  pub volumes : List String
  pub dots : List ComposeDot
  pub dot_names : List String

pub record PromTargetGroup : Type 0 where
  pub targets : List String
  pub labels : Dict String String

pub record Format : Type 1 where
  pub Float : Type 0
  -- `%g`, and how a template prints a number and a Boolean
  pub format_g : Float → String
  pub print_float : Float → String
  pub print_int : ℤ → String
  pub print_bool : Bool → String
  pub to_upper : String → String
  -- filepath.Join and filepath.Dir
  pub join_path : String → String → String
  pub dir : String → String
  pub encode_inventory : Inventory → String
  pub encode_targets : List PromTargetGroup → String
  pub render_compose : ComposeData → String
