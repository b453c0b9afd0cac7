-- ===== src/Sim/Incidents.antt =====
-- The incidents of a cabinet: the holds of its cameras and its lidar on the demand that they share
-- (internal/sim/camera.go, lidar.go and traffic.go).
use vikasa_demo.Base.{
  ℕ, ◌+◌, ◌-◌, ◌≤◌, ◌≡◌, String, true, List, [], ◌∷◌, arith, str_eq, if◌then◌else◌, get, get-put,
  get-remove, eq_iff, string_eq, Bool-cases, inl, inr,
}
use vikasa_demo.Sim.Runtime.{Runtime}
use vikasa_demo.Sim.Demand.{Demand, holders, add_incident, remove_incident}
use vikasa_demo.Sim.Demand.Holders.{holders-add_hold, holders-remove_hold}
use vikasa_demo.Sim.Perception.{Watch, is_raised, inject_watch, clear_watch}
use vikasa_demo.Sim.Camera.{Camera, new_camera}
use vikasa_demo.Sim.Camera as Camera
use vikasa_demo.Sim.Camera.Steps.{tick-Keeps}
use vikasa_demo.Sim.Lidar.{Lidar, new_lidar}
use vikasa_demo.Sim.Lidar.Reports.{tick-incidents}
use vikasa_demo.Sim.Lidar as Lidar

-- the hold of a device on an incident
abbrev pub hold : String → Watch → ℕ
hold id w = if is_raised id w then 1 else 0

module _ (N : Runtime) where
  abbrev pub held : String → Demand N → ℕ
  held id d = holders id d.incidents

  pub held-add_incident :
      (id j : String) (d : Demand N)
      → held j (add_incident N id d) ≡ (if str_eq id j then held j d + 1 else held j d)
  unfolding add_incident
  held-add_incident id j d = holders-add_hold id j d.incidents

  pub held-remove_incident :
      (id j : String) (d : Demand N)
      → held j (remove_incident N id d) ≡ (if str_eq id j then held j d - 1 else held j d)
  unfolding remove_incident
  held-remove_incident id j d = holders-remove_hold id j d.incidents

  inject_balance :
      (id j : String) (w : Watch) (d : Demand N)
      → held j (inject_watch N id w d).1 + hold j w ≡ held j d + hold j (inject_watch N id w d).0
  unfolding inject_watch
  inject_balance id j w d = elim (Bool-cases (is_raised id w)) [
    | inl e ↦ rw e (ground (arith, e, get-put id j true w.incidents, eq_iff id j))
    | inr e ↦
        rw e
          (ground (arith, e, held-add_incident id j d, get-put id j true w.incidents, eq_iff id j))
  ]

  clear_balance :
      (id j : String) (w : Watch) (d : Demand N)
      → hold j w ≤ held j d
      → held j (clear_watch N id w d).1 + hold j w ≡ held j d + hold j (clear_watch N id w d).0
  unfolding clear_watch
  clear_balance id j w d h = elim (Bool-cases (is_raised id w)) [
    | inl e ↦
        rw e
          (ground (arith, e, held-remove_incident id j d, get-remove id j w.incidents, eq_iff id j))
    | inr e ↦ rw e (ground (arith, e, get-remove id j w.incidents, eq_iff id j))
  ]

  pub data Sensor : Type 0 where
    cam_1 cam_2 lidar_1 : Sensor

  -- The devices of a cabinet that hold incidents, with the demand that they share.
  pub record Sensors : Type 0 where
    pub cam1 : Camera N
    pub cam2 : Camera N
    pub lidar1 : Lidar N
    pub demand : Demand N

  pub data Call : Type 0 where
    inject clear : Sensor → String → Call
    tick_at : ℕ → Call

  -- The effect of a call on the devices; what a tick sends is left aside.
  unfoldable pub perform : Call → Sensors → Sensors
  perform (inject cam_1 id) s =
      let (c, d) = Camera.inject_incident N id s.cam1 s.demand in record s { cam1 = c; demand = d }
  perform (inject cam_2 id) s =
      let (c, d) = Camera.inject_incident N id s.cam2 s.demand in record s { cam2 = c; demand = d }
  perform (inject lidar_1 id) s =
      let (l, d) = Lidar.inject_incident N id s.lidar1 s.demand in
      record s { lidar1 = l; demand = d }
  perform (clear cam_1 id) s =
      let (c, d) = Camera.clear_incident N id s.cam1 s.demand in record s { cam1 = c; demand = d }
  perform (clear cam_2 id) s =
      let (c, d) = Camera.clear_incident N id s.cam2 s.demand in record s { cam2 = c; demand = d }
  perform (clear lidar_1 id) s =
      let (l, d) = Lidar.clear_incident N id s.lidar1 s.demand in
      record s { lidar1 = l; demand = d }
  perform (tick_at now) s = record s {
    cam1 = (Camera.tick N s.demand now (record { dev = s.cam1; sent = [] })).dev;
    cam2 = (Camera.tick N s.demand now (record { dev = s.cam2; sent = [] })).dev;
    lidar1 = (Lidar.tick N s.demand now (record { dev = s.lidar1; sent = [] })).dev;
  }

  unfoldable pub perform_all : List Call → Sensors → Sensors
  unfolding perform
  perform_all [] s = s
  perform_all (c ∷ cs) s = perform_all cs (perform c s)

  -- The demand counts, for an incident, those of the three devices that hold it, and `others`.
  abbrev pub IsCounted : String → ℕ → Sensors → Type 0
  IsCounted j others s =
      held j s.demand ≡ others + hold j s.cam1.watch + hold j s.cam2.watch + hold j s.lidar1.watch

  perform-IsCounted :
      (j : String) (others : ℕ) (c : Call) (s : Sensors)
      → IsCounted j others s
      → IsCounted j others (perform c s)
  unfolding perform vikasa_demo.Sim.Camera.inject_incident vikasa_demo.Sim.Camera.clear_incident
      vikasa_demo.Sim.Lidar.inject_incident vikasa_demo.Sim.Lidar.clear_incident
  perform-IsCounted j n (inject cam_1 id) s h =
      omega (arith, h, inject_balance id j s.cam1.watch s.demand)
  perform-IsCounted j n (inject cam_2 id) s h =
      omega (arith, h, inject_balance id j s.cam2.watch s.demand)
  perform-IsCounted j n (inject lidar_1 id) s h =
      omega (arith, h, inject_balance id j s.lidar1.watch s.demand)
  perform-IsCounted j n (clear cam_1 id) s h =
      omega (arith, h, clear_balance id j s.cam1.watch s.demand (omega (arith, h)))
  perform-IsCounted j n (clear cam_2 id) s h =
      omega (arith, h, clear_balance id j s.cam2.watch s.demand (omega (arith, h)))
  perform-IsCounted j n (clear lidar_1 id) s h =
      omega (arith, h, clear_balance id j s.lidar1.watch s.demand (omega (arith, h)))
  perform-IsCounted j n (tick_at now) s h =
      rw
        (
          tick-Keeps N s.demand now (record { dev = s.cam1; sent = [] }),
          tick-Keeps N s.demand now (record { dev = s.cam2; sent = [] }),
          tick-incidents N s.demand now (record { dev = s.lidar1; sent = [] }),
        )
        h

  perform_all-IsCounted :
      (j : String) (others : ℕ) (cs : List Call) (s : Sensors)
      → IsCounted j others s
      → IsCounted j others (perform_all cs s)
  unfolding perform_all
  perform_all-IsCounted j n [] s h = h
  perform_all-IsCounted j n (c ∷ cs) s h =
      perform_all-IsCounted j n cs (perform c s) (perform-IsCounted j n c s h)

  unfoldable pub new_sensors : ℕ → Demand N → Sensors
  new_sensors lanes d = record {
    cam1 = new_camera N "cam-1" lanes;
    cam2 = new_camera N "cam-2" lanes;
    lidar1 = new_lidar N "lidar-1";
    demand = d;
  }

  -- However the two cameras and the lidar of a cabinet are ticked and their incidents raised and
  -- cleared, repeatedly and in any order, the demand counts for each incident exactly the devices that
  -- hold it, on top of the holds that it had before: it is released when the last device has cleared it.
  pub incidents-IsCounted :
      (j : String) (cs : List Call) (lanes : ℕ) (d : Demand N)
      → IsCounted j (held j d) (perform_all cs (new_sensors lanes d))
  unfolding new_sensors new_camera new_lidar get
  incidents-IsCounted j cs lanes d =
      perform_all-IsCounted j (held j d) cs (new_sensors lanes d) (omega arith)
