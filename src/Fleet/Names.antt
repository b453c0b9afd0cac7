-- ===== src/Fleet/Names.antt =====
-- tools/gen-compose/main.go: the names that the generated files share.
use vikasa_demo.Base.{String, [], ◌∷◌, texts}
use vikasa_demo.Fleet.Artifacts.{Format}

abbrev pub js_domain : String → String → String → String
js_domain dot district id = texts (dot ∷ "-" ∷ district ∷ "-" ∷ id ∷ [])

abbrev pub subject_filter : String → String → String → String
subject_filter dot district id = texts ("vikasa." ∷ dot ∷ "." ∷ district ∷ "." ∷ id ∷ ".>" ∷ [])

abbrev pub leaf_service : String → String → String
leaf_service dot id = texts (dot ∷ "-" ∷ id ∷ "-nats" ∷ [])

abbrev pub sim_service : String → String
sim_service id = texts (id ∷ "-sim" ∷ [])

abbrev pub cabinet_net : String → String
cabinet_net id = texts (id ∷ "-net" ∷ [])

abbrev pub conf_name : String → String → String
conf_name dot suffix = texts (dot ∷ "-" ∷ suffix ∷ ".conf" ∷ [])

abbrev pub sim_conf_name : String → String → String
sim_conf_name dot id = texts (dot ∷ "-" ∷ id ∷ ".yaml" ∷ [])

abbrev pub sink_filter : String → String
sink_filter dot = texts ("vikasa." ∷ dot ∷ ".>" ∷ [])

abbrev pub ch_database : String → String
ch_database dot = texts ("vikasa_" ∷ dot ∷ [])

module _ (E : Format) where
  abbrev pub central_stream_name : String → String → String
  central_stream_name dot district =
      let d = E.to_upper district in
      texts ("VIKASA_" ∷ E.to_upper dot ∷ "_CENTRAL_" ∷ d ∷ "_" ∷ d ∷ "_0" ∷ [])
