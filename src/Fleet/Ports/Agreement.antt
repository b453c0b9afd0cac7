-- ===== src/Fleet/Ports/Agreement.antt =====
-- The tour (internal/tour/fleet.go) and the compose file (tools/gen-compose) give each simulator the
-- same host port.
use vikasa_demo.Base.{
  ℕ, ◌+◌, ◌≡◌, refl, sym, ap, ◌∙◌, String, false, ◌||◌, List, [], ◌∷◌, ◌++◌, map-append,
  if◌then◌else◌, All, Bool-cases, inl, inr, str_eq, put, string_eq, map,
}
use vikasa_demo.Fleet.Size.{Size, is_set}
use vikasa_demo.Fleet.Artifacts.{Format, ComposeCabinet, ComposeDot}
use vikasa_demo.Fleet.Names.{sim_service}
use vikasa_demo.Fleet.Cabinets.{
  Cabinet, Dot, Fleet, port_mapped, is_kept, kept_cabinets, kept_dots, kept_fleet,
}
use vikasa_demo.Fleet.Compose.{
  compose_cabinet, compose_cabinets, compose_dots, compose_data, first_sim_port,
}
use vikasa_demo.Fleet.Tour.{FleetInfo, walk_cabinets, walk_dots, fleet_info}
use vikasa_demo.Fleet.Ports.{cabinets_of, assign, after_all, assign-append, cabinets_of-kept}
use vikasa_demo.Fleet.Ports.Tables.{put_all, put_all-append, IsFresh, AreDistinct, put_all_distinct}

module _ (E : Format) where
  -- No two of the cabinets have the same identifier.
  abbrev pub HasDistinctIds : List (Cabinet E) → Type 0
  HasDistinctIds [] = Unit
  HasDistinctIds (c ∷ cs) = All (λ (d : Cabinet E). str_eq c.id d.id ≡ false) cs × HasDistinctIds cs

  kept_cabinets-All :
      (P : Cabinet E → Type 0) (size : Size) (cs : List (Cabinet E))
      → All P cs
      → All P (kept_cabinets E size cs)
  unfolding kept_cabinets
  kept_cabinets-All P size [] h = tt
  kept_cabinets-All P size (c ∷ cs) h = elim (Bool-cases (is_kept E size c)) [
    | inl e ↦ rw e (h.0, kept_cabinets-All P size cs h.1)
    | inr e ↦ rw e (kept_cabinets-All P size cs h.1)
  ]

  kept_cabinets-HasDistinctIds :
      (size : Size) (cs : List (Cabinet E))
      → HasDistinctIds cs
      → HasDistinctIds (kept_cabinets E size cs)
  unfolding kept_cabinets
  kept_cabinets-HasDistinctIds size [] h = tt
  kept_cabinets-HasDistinctIds size (c ∷ cs) h = elim (Bool-cases (is_kept E size c)) [
    | inl e ↦ rw e (kept_cabinets-All _ size cs h.0, kept_cabinets-HasDistinctIds size cs h.1)
    | inr e ↦ rw e (kept_cabinets-HasDistinctIds size cs h.1)
  ]

  assign-IsFresh :
      (i : String) (port : ℕ) (cs : List (Cabinet E))
      → All (λ (d : Cabinet E). str_eq i d.id ≡ false) cs
      → IsFresh i (assign E port cs)
  unfolding assign
  assign-IsFresh i port [] h = tt
  assign-IsFresh i port (c ∷ cs) h = elim (Bool-cases (port_mapped E c)) [
    | inl e ↦ rw (e, assign) (h.0, assign-IsFresh i (port + 1) cs h.1)
    | inr e ↦ rw (e, assign) (assign-IsFresh i port cs h.1)
  ]

  assign-AreDistinct :
      (port : ℕ) (cs : List (Cabinet E)) → HasDistinctIds cs → AreDistinct (assign E port cs)
  unfolding assign
  assign-AreDistinct port [] h = tt
  assign-AreDistinct port (c ∷ cs) h = elim (Bool-cases (port_mapped E c)) [
    | inl e ↦
        rw (e, assign) (assign-IsFresh c.id (port + 1) cs h.0, assign-AreDistinct (port + 1) cs h.1)
    | inr e ↦ rw (e, assign) (assign-AreDistinct port cs h.1)
  ]

  -- the corridor's list after a kept cabinet
  abbrev corridor_after : Cabinet E → FleetInfo → List String
  corridor_after c info =
      if is_set c.corridor then info.corridor_cabinets ++ c.id ∷ [] else info.corridor_cabinets

  -- the tour's loop over the cabinets of a department
  walk_cabinets_lem :
      (size : Size) (cs : List (Cabinet E)) (port : ℕ) (info : FleetInfo)
      → ((walk_cabinets E size cs port info).0 ≡ after_all E (kept_cabinets E size cs) port)
        × ((walk_cabinets E size cs port info).1.sim_ports
            ≡ put_all (assign E port (kept_cabinets E size cs)) info.sim_ports)
  unfolding walk_cabinets after_all assign kept_cabinets port_mapped
  walk_cabinets_lem size [] port info = (refl, refl)
  walk_cabinets_lem size (c ∷ cs) port info = elim (Bool-cases (is_kept E size c)) [
    | inr e ↦ rw (e, walk_cabinets) (walk_cabinets_lem size cs port info)
    | inl e ↦ elim (Bool-cases (is_set c.corridor || c.expose)) [
      | inl p ↦
          rw (e, p, walk_cabinets, assign, after_all)
            (walk_cabinets_lem size cs (port + 1) (record {
              sim_ports = put c.id port info.sim_ports;
              corridor_cabinets = corridor_after c info;
            }))
      | inr p ↦
          rw (e, p, walk_cabinets, assign, after_all)
            (walk_cabinets_lem size cs port
              (record { sim_ports = info.sim_ports; corridor_cabinets = corridor_after c info }))
    ]
  ]

  -- the tour's loop over the departments
  pub walk_dots_lem :
      (size : Size) (ds : List (Dot E)) (port : ℕ) (info : FleetInfo)
      → (walk_dots E size ds port info).sim_ports
        ≡ put_all (assign E port (cabinets_of E (kept_dots E size ds))) info.sim_ports
  unfolding walk_dots assign
  walk_dots_lem size [] port info = refl
  walk_dots_lem size (d ∷ ds) port info =
      let kept = kept_cabinets E size d.cabinets in
      let (after, i) = walk_cabinets E size d.cabinets port info in
      let (a, b) = walk_cabinets_lem size d.cabinets port info in
      let rest = λ (p : ℕ). assign E p (cabinets_of E (kept_dots E size ds)) in
      walk_dots_lem size ds after i
      ∙ ap (λ x. put_all (rest after) x) b
      ∙ ap (λ p. put_all (rest p) (put_all (assign E port kept) info.sim_ports)) a
      ∙ sym (put_all-append (assign E port kept) (rest (after_all E kept port)) info.sim_ports)
      ∙ ap (λ x. put_all x info.sim_ports)
          (sym (assign-append E port kept (cabinets_of E (kept_dots E size ds))))

  -- the service and the host port of each cabinet of a compose file that has a port
  unfoldable pub ports_in : List ComposeCabinet → List (String × ℕ)
  ports_in [] = []
  ports_in (c ∷ cs) =
      let rest = ports_in cs in if c.port_mapped then (c.sim_service, c.sim_port) ∷ rest else rest

  unfoldable pub compose_ports : List ComposeDot → List (String × ℕ)
  compose_ports [] = []
  compose_ports (d ∷ ds) = ports_in d.cabinets ++ compose_ports ds

  abbrev pub with_service : String × ℕ → String × ℕ
  with_service (i, p) = (sim_service i, p)

  pub compose_cabinets_lem :
      (dot : String) (port : ℕ) (cs : List (Cabinet E))
      → ((compose_cabinets E dot port cs).1 ≡ after_all E cs port)
        × (ports_in (compose_cabinets E dot port cs).0 ≡ map with_service (assign E port cs))
  unfolding compose_cabinets compose_cabinet ports_in after_all assign port_mapped
  compose_cabinets_lem dot port [] = (refl, refl)
  compose_cabinets_lem dot port (c ∷ cs) = elim (Bool-cases (port_mapped E c)) [
    | inl p ↦
        let (a, b) = compose_cabinets_lem dot (port + 1) cs in
        rw (p, compose_cabinets, assign, after_all) (a, ap (λ x. (sim_service c.id, port) ∷ x) b)
    | inr p ↦ rw (p, compose_cabinets, assign, after_all) (compose_cabinets_lem dot port cs)
  ]

  pub compose_dots_lem :
      (index port : ℕ) (ds : List (Dot E))
      → compose_ports (compose_dots E index port ds).dots
        ≡ map with_service (assign E port (cabinets_of E ds))
  unfolding compose_dots compose_ports assign
  compose_dots_lem index port [] = refl
  compose_dots_lem index port (d ∷ ds) =
      let (a, b) = compose_cabinets_lem d.dot port d.cabinets in
      let after = (compose_cabinets E d.dot port d.cabinets).1 in
      let here = assign E port d.cabinets in
      ap (λ x. x ++ compose_ports (compose_dots E (index + 1) after ds).dots) b
      ∙ ap (λ x. map with_service here ++ x) (compose_dots_lem (index + 1) after ds)
      ∙ ap (λ p. map with_service here ++ map with_service (assign E p (cabinets_of E ds))) a
      ∙ sym
          (map-append with_service here (assign E (after_all E d.cabinets port) (cabinets_of E ds)))
      ∙ ap (map with_service) (sym (assign-append E port d.cabinets (cabinets_of E ds)))

  fleet_info_ports :
      (size : Size) (f : Fleet E)
      → HasDistinctIds (cabinets_of E f.dots)
      → (fleet_info E size f).sim_ports
        ≡ assign E first_sim_port (cabinets_of E (kept_dots E size f.dots))
  unfolding fleet_info
  fleet_info_ports size f h =
      let kept = cabinets_of E (kept_dots E size f.dots) in
      let d = assign-AreDistinct first_sim_port kept (
        rw (cabinets_of-kept E size f.dots)
          (kept_cabinets-HasDistinctIds size (cabinets_of E f.dots) h)) in
      walk_dots_lem size f.dots first_sim_port (record { sim_ports = []; corridor_cabinets = [] })
      ∙ put_all_distinct (assign E first_sim_port kept) [] d

  -- For a fleet whose cabinets have identifiers of their own, the simulators with a host port in the
  -- compose file of a size, each with its port, are the tour's table for that size: the same cabinets,
  -- in the same order, with the same ports.
  pub sim_ports_agree :
      (size : Size) (f : Fleet E)
      → HasDistinctIds (cabinets_of E f.dots)
      → compose_ports (compose_data E (kept_fleet E size f)).dots
        ≡ map with_service (fleet_info E size f).sim_ports
  unfolding compose_data kept_fleet
  sim_ports_agree size f h =
      compose_dots_lem 0 first_sim_port (kept_dots E size f.dots)
      ∙ ap (map with_service) (sym (fleet_info_ports size f h))
