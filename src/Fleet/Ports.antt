-- ===== src/Fleet/Ports.antt =====
-- The host ports of the simulators, described once: each cabinet that has a port takes the next one,
-- in the order of the file.
pub mod Tables
pub mod Agreement
pub mod Distinct
pub mod Sizes
use vikasa_demo.Base.{
  ℕ, ◌+◌, ◌≡◌, refl, sym, ap, ◌∙◌, String, Bool, true, false, List, [], ◌∷◌, ◌++◌, append_assoc,
  if◌then◌else◌, arith, All, All-append, All-of_append, Bool-cases, inl, inr, str_eq, Dict, put,
  get, get-put, string_eq, map, eq_iff,
}
use vikasa_demo.Fleet.Size.{Size}
use vikasa_demo.Fleet.Artifacts.{Format}
use vikasa_demo.Fleet.Cabinets.{Cabinet, Dot, Fleet, port_mapped, is_kept, kept_cabinets, kept_dots}

module _ (E : Format) where
  abbrev pub cabinets_of : List (Dot E) → List (Cabinet E)
  cabinets_of [] = []
  cabinets_of (d ∷ ds) = d.cabinets ++ cabinets_of ds

  -- the identifiers with their ports, from a port on
  unfoldable pub assign : ℕ → List (Cabinet E) → List (String × ℕ)
  assign port [] = []
  assign port (c ∷ cs) = elim (port_mapped E c) [
    | true ↦ (c.id, port) ∷ assign (port + 1) cs
    | false ↦ assign port cs
  ]

  -- the port after some cabinets
  unfoldable pub after_all : List (Cabinet E) → ℕ → ℕ
  after_all [] port = port
  after_all (c ∷ cs) port = after_all cs (if port_mapped E c then port + 1 else port)

  pub assign-append :
      (port : ℕ) (xs ys : List (Cabinet E))
      → assign port (xs ++ ys) ≡ assign port xs ++ assign (after_all xs port) ys
  unfolding assign after_all
  assign-append port [] ys = refl
  assign-append port (x ∷ xs) ys = elim (Bool-cases (port_mapped E x)) [
    | inl e ↦ rw (e, assign) (ap (λ l. (x.id, port) ∷ l) (assign-append (port + 1) xs ys))
    | inr e ↦ rw (e, assign) (assign-append port xs ys)
  ]

  kept_cabinets-append :
      (size : Size) (xs ys : List (Cabinet E))
      → kept_cabinets E size (xs ++ ys) ≡ kept_cabinets E size xs ++ kept_cabinets E size ys
  unfolding kept_cabinets
  kept_cabinets-append size [] ys = refl
  kept_cabinets-append size (x ∷ xs) ys = ground (arith, kept_cabinets-append size xs ys)

  pub cabinets_of-kept :
      (size : Size) (ds : List (Dot E))
      → cabinets_of (kept_dots E size ds) ≡ kept_cabinets E size (cabinets_of ds)
  unfolding kept_cabinets
  cabinets_of-kept size [] = refl
  cabinets_of-kept size (d ∷ ds) =
      ap (λ l. kept_cabinets E size d.cabinets ++ l) (cabinets_of-kept size ds)
      ∙ sym (kept_cabinets-append size d.cabinets (cabinets_of ds))
