-- ===== src/Fleet/Ports/Sizes.antt =====
-- The ports at the sizes (internal/fleetsize with tools/gen-compose).
use vikasa_demo.Base.{
  ℕ, ◌+◌, ◌≡◌, refl, sym, ap, ◌∙◌, true, List, [], ◌∷◌, arith, Bool-cases, inl, inr, map,
}
use vikasa_demo.Fleet.Size.{Size, medium, large, keep}
use vikasa_demo.Fleet.Artifacts.{Format}
use vikasa_demo.Fleet.Cabinets.{
  Cabinet, Fleet, port_mapped, is_kept, kept_cabinets, kept_dots, kept_fleet,
}
use vikasa_demo.Fleet.Compose.{compose_data, first_sim_port}
use vikasa_demo.Fleet.Ports.{cabinets_of, assign, cabinets_of-kept}
use vikasa_demo.Fleet.Ports.Agreement.{compose_ports, with_service, compose_dots_lem}

module _ (E : Format) where
  keep_mapped : (c : Cabinet E) → port_mapped E c ≡ true → is_kept E medium c ≡ true
  unfolding port_mapped is_kept keep
  keep_mapped c h = ground (arith)

  keep_all : (c : Cabinet E) → is_kept E large c ≡ true
  unfolding is_kept keep
  keep_all c = refl

  -- The cabinets that the middle size leaves out have no port.
  assign-medium :
      (port : ℕ) (cs : List (Cabinet E))
      → assign E port (kept_cabinets E medium cs) ≡ assign E port (kept_cabinets E large cs)
  unfolding assign kept_cabinets
  assign-medium port [] = refl
  assign-medium port (c ∷ cs) = elim (Bool-cases (port_mapped E c)) [
    | inl e ↦
        rw (keep_mapped c e, keep_all c, e, assign)
          (ap (λ l. (c.id, port) ∷ l) (assign-medium (port + 1) cs))
    | inr e ↦ elim (Bool-cases (is_kept E medium c)) [
      | inl k ↦ rw (k, keep_all c, e, assign) (assign-medium port cs)
      | inr k ↦ rw (k, keep_all c, e, assign) (assign-medium port cs)
    ]
  ]

  -- The compose files of a fleet at the medium and at the large size have the same host ports for the
  -- same simulators, in the same order.
  pub compose_ports_medium :
      (f : Fleet E)
      → compose_ports E (compose_data E (kept_fleet E medium f)).dots
        ≡ compose_ports E (compose_data E (kept_fleet E large f)).dots
  unfolding compose_data kept_fleet
  compose_ports_medium f =
      let cs = cabinets_of E f.dots in
      let step : (size : Size)
          → compose_ports E (compose_data E (kept_fleet E size f)).dots
            ≡ map (with_service E) (assign E first_sim_port (kept_cabinets E size cs)) =
        λ (size : Size).
          compose_dots_lem E 0 first_sim_port (kept_dots E size f.dots)
          ∙ ap (λ l. map (with_service E) (assign E first_sim_port l))
              (cabinets_of-kept E size f.dots) in
      step medium ∙ ap (map (with_service E)) (assign-medium first_sim_port cs) ∙ sym (step large)
