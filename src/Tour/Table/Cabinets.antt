-- ===== src/Tour/Table/Cabinets.antt =====
-- The cabinets that the tour (BuildPhases of internal/tour/phases.go) needs of a fleet.
use vikasa_demo.Base.{
  ℕ, ◌+◌, ◌≡◌, refl, ap, ◌∙◌, inl, inr, Bool, true, false, ◌&&◌, ◌||◌, String, List, [], ◌∷◌,
  Option, none, some, str_eq, Result, ok, err, Bool-cases, get, put, get-put, string_eq,
  if◌then◌else◌, arith,
}
use vikasa_demo.Fleet.Size.{Size}
use vikasa_demo.Fleet.Artifacts.{Format}
use vikasa_demo.Fleet.Cabinets.{Cabinet, Fleet, port_mapped, kept_dots}
use vikasa_demo.Fleet.Tour.{FleetInfo, fleet_info}
use vikasa_demo.Fleet.Ports.{cabinets_of, assign}
use vikasa_demo.Fleet.Ports.Agreement.{walk_dots_lem}
use vikasa_demo.Fleet.Ports.Tables.{Table, put_all}
use vikasa_demo.Tour.Stage.{Stage}
use vikasa_demo.Tour.Phase.{Phase}
use vikasa_demo.Tour.Table.{
  Config, BuildError, cut_cabinet, fault_cabinet, with_cut_port, with_fault_port, with_defaults,
  build_phases,
}

abbrev has_value : Option ℕ → Bool
has_value none = false
has_value (some _) = true

abbrev has_entry : String → Table → Bool
has_entry k [] = false
has_entry k (e ∷ l) = str_eq e.0 k || has_entry k l

has_value_if :
    (t : Bool) (v : ℕ) (m : Option ℕ) → has_value (if t then some v else m) ≡ (t || has_value m)
has_value_if true v m = refl
has_value_if false v m = refl

get-put_all :
    (k : String) (l m : Table)
    → has_value (get k (put_all l m)) ≡ (has_entry k l || has_value (get k m))
get-put_all k [] m = refl
get-put_all k ((j, v) ∷ l) m =
    get-put_all k l (put j v m)
    ∙ ap (λ b. has_entry k l || b)
        (ap has_value (get-put j k v m) ∙ has_value_if (str_eq j k) v (get k m))
    ∙ swap (has_entry k l) (str_eq j k) (has_value (get k m))
  where
    swap : (a b c : Bool) → (a || (b || c)) ≡ ((b || a) || c)
    swap a b c = ground arith

or_false : (b : Bool) → (b || false) ≡ b
or_false true = refl
or_false false = refl

module _ (E : Format) where
  -- One of the cabinets has the identifier, and a host port.
  abbrev pub is_mapped : String → List (Cabinet E) → Bool
  is_mapped k [] = false
  is_mapped k (c ∷ cs) = (port_mapped E c && str_eq c.id k) || is_mapped k cs

  has_entry-assign :
      (k : String) (port : ℕ) (cs : List (Cabinet E))
      → has_entry k (assign E port cs) ≡ is_mapped k cs
  unfolding assign
  has_entry-assign k port [] = refl
  has_entry-assign k port (c ∷ cs) = elim (Bool-cases (port_mapped E c)) [
    | inl e ↦ rw (e, assign) (ap (λ b. str_eq c.id k || b) (has_entry-assign k (port + 1) cs))
    | inr e ↦ rw (e, assign) (has_entry-assign k port cs)
  ]

  has_port :
      (size : Size) (f : Fleet E) (k : String)
      → has_value (get k (fleet_info E size f).sim_ports)
        ≡ is_mapped k (cabinets_of E (kept_dots E size f.dots))
  unfolding fleet_info get
  has_port size f k =
      let kept = cabinets_of E (kept_dots E size f.dots) in
      let start : FleetInfo = record { sim_ports = []; corridor_cabinets = [] } in
      ap (λ m. has_value (get k m)) (walk_dots_lem E size f.dots 18081 start)
      ∙ get-put_all k (assign E 18081 kept) []
      ∙ or_false (has_entry k (assign E 18081 kept))
      ∙ has_entry-assign k 18081 kept

  module _ (T : Stage) where
    abbrev pub is_ok : Result BuildError (List (Phase T)) → Bool
    is_ok (ok _) = true
    is_ok (err _) = false

    fault_built :
        (c : Config) (fleet : FleetInfo) (port : ℕ) (fault : Option ℕ)
        → is_ok (with_fault_port T c fleet port fault) ≡ has_value fault
    unfolding with_fault_port
    fault_built c fleet port none = refl
    fault_built c fleet port (some p) = refl

    built :
        (c : Config) (fleet : FleetInfo) (cut : Option ℕ)
        → is_ok (with_cut_port T c fleet cut)
          ≡ (has_value cut && has_value (get fault_cabinet fleet.sim_ports))
    built c fleet none = refl
    built c fleet (some port) = fault_built c fleet port (get fault_cabinet fleet.sim_ports)

    -- From what the tour reads of a fleet at a size, its phases can be built exactly where both of the
    -- cabinets that it addresses are kept at that size and have a host port.
    pub build_phases-is_mapped :
        (c : Config) (size : Size) (f : Fleet E)
        → is_ok (build_phases T c (ok (fleet_info E size f))) ≡ (
            is_mapped cut_cabinet (cabinets_of E (kept_dots E size f.dots))
            && is_mapped fault_cabinet (cabinets_of E (kept_dots E size f.dots)))
    unfolding build_phases
    build_phases-is_mapped c size f =
        let fleet = fleet_info E size f in
        built (with_defaults c) fleet (get cut_cabinet fleet.sim_ports)
        ∙ ap (λ b. b && has_value (get fault_cabinet fleet.sim_ports)) (has_port size f cut_cabinet)
        ∙ ap (λ b. is_mapped cut_cabinet (cabinets_of E (kept_dots E size f.dots)) && b)
            (has_port size f fault_cabinet)
