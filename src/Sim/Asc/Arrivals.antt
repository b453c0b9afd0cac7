-- ===== src/Sim/Asc/Arrivals.antt =====
-- The arrivals of internal/sim/asc.go: the fuel of their loop is enough.
use vikasa_demo.Base.{
  ℕ, zero, suc, ◌+◌, ◌-◌, ◌<◌, ◌≡◌, refl, some, arith, ltb, Bool-cases, inl, inr, ltb→lt,
}
use vikasa_demo.Sim.Runtime.{Runtime}
use vikasa_demo.Sim.Demand.{Demand, next_headway}
use vikasa_demo.Sim.Asc.{Street, arrivals, first_arrival, fire_arrivals}

module _ (N : Runtime) where
  -- Every headway is a nanosecond or more.
  abbrev pub IsSpaced : Type 0
  IsSpaced = (d : Demand N) (t : ℕ) → 0 < (next_headway N d t).0

  arrivals-future :
      (fuel now next : ℕ) (s : Street N)
      → IsSpaced
      → now < next + fuel
      → now < (arrivals N fuel now next s).0
  unfolding arrivals
  arrivals-future zero now next s spaced h = omega (arith, h)
  arrivals-future (suc fuel) now next s spaced h = elim (Bool-cases (ltb now next)) [
    | inl e ↦ rw (e, arrivals) (ltb→lt now next e)
    | inr e ↦
        rw (e, arrivals)
          (arrivals-future fuel now (next + (next_headway N s.demand next).0) _ spaced
            (omega (arith, h, spaced s.demand next)))
  ]

  -- When every headway is a nanosecond or more, the arrivals of a tick end with the next arrival in the
  -- future: none that has come is left out.
  pub fire_arrivals_future :
      (now : ℕ) (s : Street N)
      → IsSpaced
      → (next : ℕ) × ((fire_arrivals N now s).unit.asc.next_arrival ≡ some next) × (now < next)
  unfolding fire_arrivals
  fire_arrivals_future now s spaced =
      let f = first_arrival N s.unit.asc.next_arrival now s.demand in
      (
        _,
        refl,
        arrivals-future (now + 1 - f.0) now f.0 (record s { demand = f.1 }) spaced (omega arith),
      )
