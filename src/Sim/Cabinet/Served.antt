-- ===== src/Sim/Cabinet/Served.antt =====
-- The devices of a cabinet (cmd/cabinet-sim) against what the publisher (internal/events) and the sink
-- (internal/sink) do with the events: each device sends from its own name, and only types that have a
-- subject and a handler.
use vikasa_demo.Base.{
  ℕ, ◌≡◌, refl, ap, ◌∙◌, String, true, Option, none, some, List, [], map, ok, get, string_eq, All,
  All-append, All-map, All-imp, split,
}
use vikasa_demo.Sim.Emitter.{Emission}
use vikasa_demo.Sim.Runtime.{Runtime}
use vikasa_demo.Sim.Demand.{Demand}
use vikasa_demo.Sim.Scenario.{Devices}
use vikasa_demo.Sim.Asc as Asc
use vikasa_demo.Sim.Camera as Camera
use vikasa_demo.Sim.Reversible as Reversible
use vikasa_demo.Sim.Reversible.{ReversibleLane}
use vikasa_demo.Events.Subject.{service_event, is_token}
use vikasa_demo.Sink.Decoder.{Decoder}
use vikasa_demo.Sink.Handlers.{Handler}
use vikasa_demo.Sink.Registry.{registry}
use vikasa_demo.Sim.Cabinet.{
  CabinetMsg, asc_msg, camera_msg, lidar_msg, dms_msg, gateway_msg, reversible_msg, as_cabinet,
  idle, tick_reversible, tick_all,
}
use vikasa_demo.Sim.Cabinet.Sends.{Sends}
use vikasa_demo.Sim.Cabinet.Signals.Streets as Streets
use vikasa_demo.Sim.Cabinet.Sensors as Sensors
use vikasa_demo.Sim.Cabinet.Signs as Signs

module _ (D : Decoder) where
  -- A type with a service and an event that can stand in a subject, and with a handler in the sink.
  pub record IsServed (t : String) : Type 0 where
    pub service : String
    pub event : String
    pub routed : service_event t ≡ ok (service, event)
    pub service_token : is_token service ≡ true
    pub event_token : is_token event ≡ true
    pub handler : Handler D
    pub handled : get t (registry D) ≡ some handler

  known :
      (t service event : String) (h : Handler D)
      → service_event t ≡ ok (service, event)
      → is_token service ≡ true
      → is_token event ≡ true
      → get t (registry D) ≡ some h
      → IsServed t
  known t service event h r s e k = record {
    service = service;
    event = event;
    routed = r;
    service_token = s;
    event_token = e;
    handler = h;
    handled = k;
  }

  abbrev pub Sent : {M : Type 0} → List (Emission M) → Type 0
  Sent es = All (λ e. (is_token e.controller ≡ true) × IsServed e.ce_type) es

  -- What a device with a name that is a token sends, as an event of the cabinet.
  wrap :
      {M : Type 0} (c controller : String) (f : M → CabinetMsg) (es : List (Emission M))
      → is_token c ≡ true
      → Sends c IsServed controller es
      → Sent (map (as_cabinet f) es)
  wrap c controller f es token h =
      All-map (as_cabinet f) _ es (All-imp _ _ (λ e k. (ap is_token k.0 ∙ token, k.1)) es h.1)

  abbrev pub IsRev : Option ReversibleLane → Type 0
  IsRev none = Unit
  IsRev (some r) = r.controller ≡ "rev-1"

  tick_reversible-IsRev :
      (now : ℕ) (r : Option ReversibleLane)
      → IsRev r
      → IsRev (tick_reversible now r).0 × Sent (tick_reversible now r).1
  unfolding service_event is_token get registry split
  tick_reversible-IsRev now none h = (tt, tt)
  tick_reversible-IsRev now (some r) h =
      let k =
        Signs.reversible-Sends "rev-1" IsServed (known _ _ _ _ refl refl refl refl) now (idle r)
          (h, tt) in
      (k.0, wrap "rev-1" _ reversible_msg (Reversible.tick now (idle r)).sent refl k)

  module _ (N : Runtime) where
    -- The devices have the names that `main` gives them.
    abbrev pub AreNamed : Devices N → Type 0
    AreNamed s =
        (s.asc.controller ≡ "asc-1")
        × (s.cam1.controller ≡ "cam-1")
        × (s.cam2.controller ≡ "cam-2")
        × (s.lidar1.controller ≡ "lidar-1")
        × (s.dms1.controller ≡ "dms-1")
        × (s.gw.controller ≡ "gw")
        × IsRev s.reversible

    camera-Sends :
        (c : String) (d : Demand N) (now : ℕ) (cam : Camera.Camera N)
        → cam.controller ≡ c
        → Sends c IsServed
            (Camera.tick N d now (idle cam)).dev.controller
            (Camera.tick N d now (idle cam)).sent
    unfolding service_event is_token get registry split
    camera-Sends c d now cam h =
        Sensors.camera-Sends c IsServed (known _ _ _ _ refl refl refl refl)
          (known _ _ _ _ refl refl refl refl) N (known _ _ _ _ refl refl refl refl)
          (known _ _ _ _ refl refl refl refl) (known _ _ _ _ refl refl refl refl) d now (idle cam)
          (h, tt)

    pub tick_all-AreNamed :
        (now : ℕ) (s : Devices N)
        → AreNamed s
        → AreNamed (tick_all N now s).0 × Sent (tick_all N now s).1
    unfolding tick_all service_event is_token get registry split
    tick_all-AreNamed now s (asc, cam1, cam2, lidar, dms, gw, rev) =
        let street : Asc.Street N = record {
          demand = s.demand;
          unit = record { asc = s.asc; sent = [] };
        } in
        let d = (Asc.tick N now street).demand in
        let a =
          Streets.tick-Sends "asc-1" IsServed
            (record {
              phase = known _ _ _ _ refl refl refl refl;
              detector = known _ _ _ _ refl refl refl refl;
              status = known _ _ _ _ refl refl refl refl;
              fault = known _ _ _ _ refl refl refl refl;
              pedestrian = known _ _ _ _ refl refl refl refl;
              coordination = known _ _ _ _ refl refl refl refl;
            })
            N now street (asc, tt) in
        let c1 = camera-Sends "cam-1" d now s.cam1 cam1 in
        let c2 = camera-Sends "cam-2" d now s.cam2 cam2 in
        let l =
          Sensors.lidar-Sends "lidar-1" IsServed (known _ _ _ _ refl refl refl refl)
            (known _ _ _ _ refl refl refl refl) N (known _ _ _ _ refl refl refl refl) d now
            (idle s.lidar1) (lidar, tt) in
        let m =
          Signs.dms-Sends "dms-1" IsServed (known _ _ _ _ refl refl refl refl)
            (known _ _ _ _ refl refl refl refl) (known _ _ _ _ refl refl refl refl) N (some d) now
            (idle s.dms1) (dms, tt) in
        let g =
          Signs.gateway-Sends "gw" IsServed now (idle s.gw) (known _ _ _ _ refl refl refl refl)
            (gw, tt) in
        let r = tick_reversible-IsRev now s.reversible rev in
        (
          (a.0, c1.0, c2.0, l.0, m.0, g.0, r.0),
          All-append _ _ _ (wrap "asc-1" _ asc_msg _ refl a) (
              All-append _ _ _ (wrap "cam-1" _ camera_msg _ refl c1) (
                All-append _ _ _ (wrap "cam-2" _ camera_msg _ refl c2) (
                  All-append _ _ _ (wrap "lidar-1" _ lidar_msg _ refl l) (
                    All-append _ _ _ (wrap "dms-1" _ dms_msg _ refl m)
                      (All-append _ _ _ (wrap "gw" _ gateway_msg _ refl g) r.1))))),
        )
