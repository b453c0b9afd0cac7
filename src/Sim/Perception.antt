-- ===== src/Sim/Perception.antt =====
-- What internal/sim/camera.go and internal/sim/lidar.go share: the incidents that a device holds, and
-- the Poisson draw.
pub mod Poisson
use vikasa_demo.Base.{
  ℕ, zero, suc, ◌+◌, ◌-◌, ◌%◌, ◌^◌, String, Bool, true, false, List, [], ◌∷◌, ◌++◌, if◌then◌else◌,
  Dict, get, put, remove, or_else, string_eq,
}
use vikasa_demo.Sim.Runtime.{Runtime}
use vikasa_demo.Sim.Demand.{Demand, add_incident, remove_incident}

-- uint32 arithmetic wraps
abbrev pub u32 : ℕ → ℕ
u32 n = n % 2 ^ 32

pub record IncidentEvent : Type 0 where
  pub id : String
  pub raised : Bool

-- The fields `incidents` and `pendingIncidents` of a device.
pub record Watch : Type 0 where
  pub incidents : Dict String Bool
  pub pending_incidents : List IncidentEvent

abbrev pub no_incidents : Watch
no_incidents = record { incidents = []; pending_incidents = [] }

-- c.incidents[id]
abbrev pub is_raised : String → Watch → Bool
is_raised id w = or_else (get id w.incidents) false

module _ (N : Runtime) where
  open N use {F, R, lit, mul, exp_neg, le, uniform}

  -- InjectIncident of both devices, with the demand that they share
  unfoldable pub inject_watch : String → Watch → Demand N → Watch × Demand N
  inject_watch id w d =
      let raised : IncidentEvent = record { id = id; raised = true } in
      let w' : Watch = record {
        incidents = put id true w.incidents;
        pending_incidents = w.pending_incidents ++ raised ∷ [];
      } in
      (w', if is_raised id w then d else add_incident N id d)

  -- ClearIncident of both devices
  unfoldable pub clear_watch : String → Watch → Demand N → Watch × Demand N
  clear_watch id w d =
      let cleared : IncidentEvent = record { id = id; raised = false } in
      let w' : Watch = record {
        incidents = remove id w.incidents;
        pending_incidents = w.pending_incidents ++ cleared ∷ [];
      } in
      (w', if is_raised id w then remove_incident N id d else d)

  -- The loop of poissonDraw, on fuel: the uniform draws taken, as many as a uint32 counts at most.
  unfoldable pub poisson_loop : ℕ → F → ℕ → F → R → ℕ × R
  poisson_loop zero l k p rng = (k, rng)
  poisson_loop (suc fuel) l k p rng =
      let (u, rng') = uniform rng in
      elim (le (mul p u) l) [
        | true ↦ (k + 1, rng')
        | false ↦ poisson_loop fuel l (k + 1) (mul p u) rng'
      ]

  unfoldable pub poisson_draw : R → F → ℕ × R
  unfolding poisson_loop
  poisson_draw rng lambda =
      if le lambda (lit 0 1)
      then (0, rng)
      else (let (k, rng') = poisson_loop (2 ^ 32) (exp_neg lambda) 0 (lit 1 1) rng in (k - 1, rng'))
