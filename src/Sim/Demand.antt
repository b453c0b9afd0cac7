-- ===== src/Sim/Demand.antt =====
-- internal/sim/traffic.go: the traffic of a cabinet, which all its devices read. A mutex makes each
-- method a step of its own; a method that changes the state returns the new one.
pub mod Holders
pub mod Episodes
use vikasa_demo.Base.{
  ℕ, zero, suc, ◌+◌, ◌-◌, ◌*◌, ◌/◌, ◌%◌, String, Bool, true, false, Option, none, some, List, [],
  ◌∷◌, ltb, leb, if◌then◌else◌, Dict, get, put, remove, is_nonempty, or_else, string_eq,
}
use vikasa_demo.Sim.Emitter.{second}
use vikasa_demo.Sim.Runtime.{Runtime}

abbrev pub congestion_cycle_period : ℕ
congestion_cycle_period = 1200 * second

abbrev pub congestion_ramp_min : ℕ
congestion_ramp_min = 25 * second

abbrev pub congestion_ramp_max : ℕ
congestion_ramp_max = 60 * second

abbrev pub congestion_hold_min : ℕ
congestion_hold_min = 60 * second

abbrev pub congestion_hold_max : ℕ
congestion_hold_max = 180 * second

abbrev pub demand_noise_period_min : ℕ
demand_noise_period_min = 300 * second

abbrev pub demand_noise_period_max : ℕ
demand_noise_period_max = 540 * second

abbrev nth : ℕ → List ℕ → ℕ
nth i [] = 0
nth zero (x ∷ xs) = x
nth (suc i) (x ∷ xs) = nth i xs

-- hourCurve, in hundredths
unfoldable pub hour_curve : ℕ → ℕ
hour_curve h = nth h (
    62 ∷ 60 ∷ 58 ∷ 58 ∷ 60 ∷ 68 ∷ 80 ∷ 92 ∷ 100 ∷ 90 ∷ 80 ∷ 78 ∷ 80 ∷ 80 ∷ 82 ∷ 88 ∷ 95 ∷ 100 ∷ 93
    ∷ 82 ∷ 75 ∷ 70 ∷ 66 ∷ 64 ∷ [])

-- the holder count of an incident; a missing key reads as 0
abbrev pub holders : String → Dict String ℕ → ℕ
holders id m = or_else (get id m) 0

-- d.incidents[id]++
unfoldable pub add_hold : String → Dict String ℕ → Dict String ℕ
add_hold id m = put id (holders id m + 1) m

unfoldable pub remove_hold : String → Dict String ℕ → Dict String ℕ
remove_hold id m = if leb (holders id m) 1 then remove id m else put id (holders id m - 1) m

module _ (N : Runtime) where
  open N use {
    F, R, lit, pi, of_ℕ, trunc, round, add, sub, mul, div, sqrt, sin, lt, seed, uniform,
    exponential,
  }

  pub record Episode : Type 0 where
    pub offset : ℕ
    pub ramp_up : ℕ
    pub hold : ℕ
    pub ramp_down : ℕ
    pub peak : F

  -- `dt` of levelAt: an offset is below the period, so the sum with the period is not negative
  unfoldable pub since_offset : ℕ → ℕ → ℕ
  since_offset elapsed offset =
      if ltb elapsed offset then elapsed + congestion_cycle_period - offset else elapsed - offset

  -- The durations of an episode are not negative, so `<= 0` is a test for 0.
  unfoldable pub level_at : Episode → ℕ → F
  unfolding since_offset
  level_at e elapsed =
      let dt = since_offset elapsed e.offset in
      if leb (e.ramp_up + e.hold + e.ramp_down) dt
      then lit 0 1
      else if ltb dt e.ramp_up
      then (if leb e.ramp_up 0 then e.peak else div (mul e.peak (of_ℕ dt)) (of_ℕ e.ramp_up))
      else if ltb dt (e.ramp_up + e.hold)
      then e.peak
      else if leb e.ramp_down 0
      then lit 0 1
      else mul e.peak (sub (lit 1 1) (div (of_ℕ (dt - e.ramp_up - e.hold)) (of_ℕ e.ramp_down)))

  unfoldable pub clamp_float : F → F → F → F
  clamp_float v lo hi = if lt v lo then lo else if lt hi v then hi else v

  -- a duration drawn between two bounds
  abbrev draw_span : ℕ → ℕ → R → ℕ × R
  draw_span lo hi rng = let (u, rng') = uniform rng in (lo + trunc (mul u (of_ℕ (hi - lo))), rng')

  abbrev draw_between : F → F → R → F × R
  draw_between lo hi rng = let (u, rng') = uniform rng in (add lo (mul u (sub hi lo)), rng')

  unfoldable pub draw_episode : R → Episode × R
  draw_episode rng =
      let (offset, rng1) = draw_span 0 congestion_cycle_period rng in
      let (ramp_up, rng2) = draw_span congestion_ramp_min congestion_ramp_max rng1 in
      let (hold, rng3) = draw_span congestion_hold_min congestion_hold_max rng2 in
      let (ramp_down, rng4) = draw_span congestion_ramp_min congestion_ramp_max rng3 in
      let (peak, rng5) = draw_between (lit 50 100) (lit 85 100) rng4 in
      (
        record {
          offset = offset;
          ramp_up = ramp_up;
          hold = hold;
          ramp_down = ramp_down;
          peak = peak;
        },
        rng5,
      )

  unfoldable pub draw_episodes : ℕ → R → List Episode × R
  draw_episodes zero rng = ([], rng)
  draw_episodes (suc n) rng =
      let (e, rng') = draw_episode rng in let (es, rng'') = draw_episodes n rng' in (e ∷ es, rng'')

  unfoldable pub episode_count : F → ℕ
  unfolding clamp_float
  episode_count base_vph =
      let sat = clamp_float (div base_vph (lit 900 1)) (lit 3 10) (lit 13 10) in
      let count = round (add (lit 1 1) (mul (lit 2 1) sat)) in
      if ltb count 1 then 1 else if ltb 4 count then 4 else count

  unfoldable pub generate_congestion_episodes : R → F → List Episode × R
  unfolding episode_count draw_episodes
  generate_congestion_episodes rng base_vph = draw_episodes (episode_count base_vph) rng

  pub record Demand : Type 0 where
    pub rng : R
    pub base_vph : F
    pub incidents : Dict String ℕ
    pub episodes : List Episode
    pub noise_period : ℕ
    pub noise_phase : F
    pub noise_amplitude : F

  unfoldable pub new_demand : ℕ → F → Demand
  unfolding generate_congestion_episodes
  new_demand s base_vph =
      let (episodes, rng1) = generate_congestion_episodes (seed s) base_vph in
      let (period, rng2) = draw_span demand_noise_period_min demand_noise_period_max rng1 in
      let (phase, rng3) = uniform rng2 in
      let (amplitude, rng4) = draw_between (lit 4 100) (lit 8 100) rng3 in
      record {
        rng = rng4;
        base_vph = base_vph;
        incidents = [];
        episodes = episodes;
        noise_period = period;
        noise_phase = mul (mul phase (lit 2 1)) pi;
        noise_amplitude = amplitude;
      }

  -- the loop of CongestionLevel
  unfoldable pub max_level : F → List Episode → ℕ → F
  max_level level [] elapsed = level
  max_level level (e ∷ es) elapsed =
      max_level (if lt level (level_at e elapsed) then level_at e elapsed else level) es elapsed

  -- `mod64(t.Unix(), 1200)`: a time is not negative here
  unfoldable pub congestion_level : Demand → ℕ → F
  congestion_level d t =
      max_level (lit 0 1) d.episodes (t / second % (congestion_cycle_period / second) * second)

  -- period.Seconds()
  abbrev seconds : ℕ → F
  seconds d = add (of_ℕ (d / second)) (div (of_ℕ (d % second)) (of_ℕ second))

  unfoldable pub demand_noise_factor : Demand → ℕ → F
  demand_noise_factor d t =
      let turns = div (mul (mul (lit 2 1) pi) (of_ℕ (t / second))) (seconds d.noise_period) in
      add (lit 1 1) (mul d.noise_amplitude (sin (add turns d.noise_phase)))

  unfoldable pub volume_per_hour : Demand → ℕ → F
  volume_per_hour d t =
      mul (mul d.base_vph (lit (hour_curve (t / second / 3600 % 24)) 100)) (demand_noise_factor d t)

  -- The speed before degradation: Greenshields' uncongested root.
  unfoldable pub free_speed : Demand → ℕ → F
  free_speed d t =
      let qmax = div (mul (lit 65 1) (lit 120 1)) (lit 4 1) in
      let q' = volume_per_hour d t in
      let q = if lt qmax q' then qmax else q' in
      let k = mul (div (lit 120 1) (lit 2 1)) (sub (lit 1 1) (sqrt (sub (lit 1 1) (div q qmax)))) in
      mul (lit 65 1) (sub (lit 1 1) (div k (lit 120 1)))

  unfoldable pub incident_active : Demand → Bool
  incident_active d = is_nonempty d.incidents

  unfoldable pub speed_kmh : Demand → ℕ → F
  unfolding incident_active
  speed_kmh d t =
      let v = free_speed d t in
      let level = congestion_level d t in
      if incident_active d
      then mul v (lit 4 10)
      else if lt (lit 0 1) level
      then mul v (sub (lit 1 1) (mul level (lit 55 100)))
      else v

  unfoldable pub density_per_km : Demand → ℕ → F
  density_per_km d t = div (volume_per_hour d t) (speed_kmh d t)

  unfoldable pub next_headway : Demand → ℕ → ℕ × Demand
  next_headway d t =
      let vph' = volume_per_hour d t in
      let vph = if lt vph' (lit 1 1) then lit 1 1 else vph' in
      let (u, rng) = exponential d.rng in
      (trunc (div (mul u (of_ℕ (3600 * second))) vph), record d { rng = rng })

  unfoldable pub draw : Demand → F × Demand
  draw d = let (u, rng) = uniform d.rng in (u, record d { rng = rng })

  unfoldable pub add_incident : String → Demand → Demand
  unfolding add_hold
  add_incident id d = record d { incidents = add_hold id d.incidents }

  unfoldable pub remove_incident : String → Demand → Demand
  unfolding remove_hold
  remove_incident id d = record d { incidents = remove_hold id d.incidents }

  unfoldable pub set_incident : Bool → Demand → Demand
  unfolding add_incident remove_incident
  set_incident true d = add_incident "_manual" d
  set_incident false d = remove_incident "_manual" d
