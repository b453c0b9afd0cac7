-- ===== src/Fleet/Ports/Distinct.antt =====
-- The host ports of a compose file (tools/gen-compose): those of the simulators, of the departments'
-- sinks and of the sink of the federation.
use mathlib.Core.Path.{subst}
use vikasa_demo.Base.{
  ℕ, zero, suc, ◌+◌, ◌≤◌, ◌≡◌, refl, sym, ap, ◌∙◌, String, List, [], ◌∷◌, ◌++◌, if◌then◌else◌,
  arith, length, Bool-cases, inl, inr, map,
}
use vikasa_demo.Fleet.Artifacts.{Format, ComposeDot, ComposeData}
use vikasa_demo.Fleet.Cabinets.{Cabinet, Dot, Fleet, port_mapped}
use vikasa_demo.Fleet.Compose.{
  compose_cabinets, compose_dots, compose_data, first_sim_port, first_sink_port,
}
use vikasa_demo.Fleet.Ports.{cabinets_of, assign}
use vikasa_demo.Fleet.Ports.Agreement.{compose_ports, with_service, compose_dots_lem}

-- the host port of federation-sink, fixed in the template
abbrev pub federation_port : ℕ
federation_port = 19094

abbrev run_from : ℕ → ℕ → List ℕ
run_from low zero = []
run_from low (suc n) = low ∷ run_from (low + 1) n

-- Each port is above those before it, and the first is at least `low`.
abbrev pub IsIncreasing : ℕ → List ℕ → Type 0
IsIncreasing low [] = Unit
IsIncreasing low (p ∷ ps) = (low ≤ p) × IsIncreasing (p + 1) ps

run_from-IsIncreasing :
    (low n : ℕ) (ps : List ℕ) → IsIncreasing (low + n) ps → IsIncreasing low (run_from low n ++ ps)
run_from-IsIncreasing low zero ps h = subst (λ x. IsIncreasing x ps) (omega arith) h
run_from-IsIncreasing low (suc n) ps h = (
  omega arith,
  run_from-IsIncreasing (low + 1) n ps (subst (λ x. IsIncreasing x ps) (omega arith) h),
)

run_from_next : (low n : ℕ) → run_from low (n + 1) ≡ low ∷ run_from (low + 1) n
run_from_next low n = let e : n + 1 ≡ suc n = omega arith in ap (run_from low) e

IsIncreasing-mono :
    (low high : ℕ) (ps : List ℕ) → low ≤ high → IsIncreasing high ps → IsIncreasing low ps
IsIncreasing-mono low high [] le h = tt
IsIncreasing-mono low high (p ∷ ps) le h = (omega arith, h.1)

module _ (E : Format) where
  -- the cabinets that have a host port
  unfoldable pub mapped : List (Cabinet E) → ℕ
  mapped [] = 0
  mapped (c ∷ cs) = let rest = mapped cs in if port_mapped E c then rest + 1 else rest

  abbrev pub ports_of : List (String × ℕ) → List ℕ
  ports_of = map (λ (e : String × ℕ). e.1)

  assign_ports :
      (port : ℕ) (cs : List (Cabinet E))
      → ports_of (map (with_service E) (assign E port cs)) ≡ run_from port (mapped cs)
  unfolding assign mapped
  assign_ports port [] = refl
  assign_ports port (c ∷ cs) = elim (Bool-cases (port_mapped E c)) [
    | inl e ↦
        rw (e, assign)
          (ap (λ l. port ∷ l) (assign_ports (port + 1) cs) ∙ sym (run_from_next port (mapped cs)))
    | inr e ↦ rw (e, assign) (assign_ports port cs)
  ]

  abbrev pub sink_ports : List ComposeDot → List ℕ
  sink_ports = map (λ (d : ComposeDot). d.sink_port)

  sink_ports_lem :
      (index port : ℕ) (ds : List (Dot E))
      → sink_ports (compose_dots E index port ds).dots
        ≡ run_from (first_sink_port + index) (length ds)
  unfolding compose_dots
  sink_ports_lem index port [] = refl
  sink_ports_lem index port (d ∷ ds) =
      let after = (compose_cabinets E d.dot port d.cabinets).1 in
      let e : first_sink_port + (index + 1) ≡ first_sink_port + index + 1 = omega arith in
      ap (λ l. (first_sink_port + index) ∷ l)
        (sink_ports_lem (index + 1) after ds ∙ ap (λ p. run_from p (length ds)) e)

  abbrev pub host_ports : ComposeData → List ℕ
  host_ports data' =
      ports_of (compose_ports E data'.dots) ++ (sink_ports data'.dots ++ federation_port ∷ [])

  -- With at most three departments and at most 1010 cabinets that have a port, the host ports of a
  -- compose file, those of the simulators, then those of the sinks, then that of the federation's sink,
  -- are increasing: no port is given twice.
  pub host_ports-IsIncreasing :
      (f : Fleet E)
      → mapped (cabinets_of E f.dots) ≤ 1010
      → length f.dots ≤ 3
      → IsIncreasing first_sim_port (host_ports (compose_data E f))
  unfolding compose_data
  host_ports-IsIncreasing f few small =
      let n = mapped (cabinets_of E f.dots) in
      let sims =
        ap ports_of (compose_dots_lem E 0 first_sim_port f.dots)
        ∙ assign_ports first_sim_port (cabinets_of E f.dots) in
      let sinks = sink_ports_lem 0 first_sim_port f.dots in
      rw (sims, sinks)
        (run_from-IsIncreasing first_sim_port n _ (
          IsIncreasing-mono (first_sim_port + n) first_sink_port _ (omega arith) (
            run_from-IsIncreasing first_sink_port (length f.dots) (federation_port ∷ [])
              (omega arith, tt))))
