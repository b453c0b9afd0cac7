-- ===== src/Sim/Demand/Episodes.antt =====
-- The congestion schedule of internal/sim/traffic.go.
use vikasa_demo.Base.{
  ℕ, zero, suc, ◌+◌, ◌*◌, ◌/◌, ◌%◌, ◌≤◌, ◌<◌, ◌≡◌, refl, ap, true, false, List, [], ◌∷◌, length,
  All, arith, if◌then◌else◌,
}
use vikasa_demo.Sim.Emitter.{second}
use vikasa_demo.Sim.Runtime.{Runtime}
use vikasa_demo.Sim.Demand.{
  congestion_cycle_period, Episode, since_offset, level_at, draw_episodes, episode_count,
  generate_congestion_episodes, Demand, new_demand, max_level, congestion_level, incident_active,
  free_speed, speed_kmh,
}

module _ (N : Runtime) where
  open N use {F, lit, lt, lt_irrefl, lt_trans, mul}

  since_offset-mod :
      (offset x : ℕ)
      → offset < congestion_cycle_period
      → x < congestion_cycle_period
      → since_offset N ((offset + x) % congestion_cycle_period) offset ≡ x
  unfolding since_offset
  since_offset-mod offset x h k = ground arith

  since_offset_zero : (x : ℕ) → since_offset N x 0 ≡ x
  unfolding since_offset
  since_offset_zero x = ground arith

  -- An episode has the same course whatever its offset, also where it runs over the end of the
  -- cycle: `x` after its offset, taken modulo the cycle, its level is that of the same episode with
  -- offset 0 at `x`.
  pub level_at-mod :
      (e : Episode N) (x : ℕ)
      → e.offset < congestion_cycle_period
      → x < congestion_cycle_period
      → level_at N e ((e.offset + x) % congestion_cycle_period)
        ≡ level_at N (record e { offset = 0 }) x
  unfolding level_at
  level_at-mod e x h k = rw (since_offset-mod e.offset x h k, since_offset_zero x)

  max_level-ge_start :
      (level bound : F) (es : List (Episode N)) (t : ℕ)
      → lt level bound ≡ false
      → lt (max_level N level es t) bound ≡ false
  unfolding max_level
  max_level-ge_start level bound [] t h = h
  max_level-ge_start level bound (e ∷ es) t h =
      max_level-ge_start (if lt level (level_at N e t) then level_at N e t else level) bound es t
        (ground (arith, lt_trans level (level_at N e t) bound))

  max_level-ge :
      (level : F) (es : List (Episode N)) (t : ℕ)
      → All (λ e. lt (max_level N level es t) (level_at N e t) ≡ false) es
  unfolding max_level
  max_level-ge level [] t = tt
  max_level-ge level (e ∷ es) t = (
    max_level-ge_start _ (level_at N e t) es t (ground (arith, lt_irrefl (level_at N e t))),
    max_level-ge (if lt level (level_at N e t) then level_at N e t else level) es t,
  )

  length-draw_episodes : (n : ℕ) (rng : N.R) → length (draw_episodes N n rng).0 ≡ n
  unfolding draw_episodes
  length-draw_episodes zero rng = refl
  length-draw_episodes (suc n) rng = ap suc (length-draw_episodes n _)

  episode_count_bounds : (v : F) → (1 ≤ episode_count N v) × (episode_count N v ≤ 4)
  unfolding episode_count
  episode_count_bounds v = ground arith

  -- A new demand has between one and four episodes, whatever the seed and the base volume.
  pub new_demand_episodes :
      (seed : ℕ) (base_vph : F)
      → (1 ≤ length (new_demand N seed base_vph).episodes)
        × (length (new_demand N seed base_vph).episodes ≤ 4)
  unfolding new_demand generate_congestion_episodes
  new_demand_episodes seed base_vph =
      rw (length-draw_episodes (episode_count N base_vph) (N.seed seed))
        (episode_count_bounds base_vph)

  -- The congestion level is exceeded by no episode of the schedule, is not below 0, and repeats
  -- with the period of the schedule.
  pub congestion_level_max :
      (d : Demand N) (t cycles : ℕ)
      → All
          (λ e. lt (congestion_level N d t) (level_at N e (t / second % 1200 * second)) ≡ false)
          d.episodes
        × (lt (congestion_level N d t) (lit 0 1) ≡ false)
        × (congestion_level N d (t + cycles * congestion_cycle_period) ≡ congestion_level N d t)
  unfolding congestion_level
  congestion_level_max d t cycles = (
    max_level-ge (lit 0 1) d.episodes _,
    max_level-ge_start (lit 0 1) (lit 0 1) d.episodes _ (lt_irrefl (lit 0 1)),
    ap (λ (s : ℕ). max_level N (lit 0 1) d.episodes (s * second)) (omega arith),
  )

  -- While an incident is held the speed is the degraded one and the congestion schedule has no part
  -- in it; with none held and no congestion it is not degraded.
  pub speed_kmh_modes :
      (d : Demand N) (t : ℕ)
      → (incident_active N d ≡ true → speed_kmh N d t ≡ mul (free_speed N d t) (lit 4 10))
        × (incident_active N d ≡ false
            → lt (lit 0 1) (congestion_level N d t) ≡ false
            → speed_kmh N d t ≡ free_speed N d t)
  unfolding speed_kmh
  speed_kmh_modes d t = ground arith
