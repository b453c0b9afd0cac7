-- ===== src/Sim/Cabinet/Signs.antt =====
-- What the sign, the gateway and the reversible lane of internal/sim send.
use vikasa_demo.Base.{
  ℕ, ◌-◌, ◌≡◌, refl, String, List, [], ◌∷◌, Option, none, some, every_inv, arith, if-cases, true,
  leb, not, ◌||◌, ◌&&◌, if◌then◌else◌,
}
use vikasa_demo.Sim.Runtime.{Runtime}
use vikasa_demo.Sim.Emitter.{Out}
use vikasa_demo.Sim.Demand.{Demand, congestion_level}
use vikasa_demo.Sim.Dms as Dms
use vikasa_demo.Sim.Gateway as Gateway
use vikasa_demo.Sim.Reversible as Reversible
use vikasa_demo.Sim.Cabinet.Sends.{Sends, Sends-emit}

module _ (c : String) (P : String → Type 0) where
  module _ (mode : P "vikasa.dms.mode-changed.v1") (raised : P "vikasa.dms.fault-raised.v1")
      (cleared : P "vikasa.dms.fault-cleared.v1") where
    abbrev SignSends : Out Dms.Dms Dms.DmsMsg → Type 0
    SignSends o = Sends c P o.dev.controller o.sent

    modes-Sends :
        (now : ℕ) (es : List Dms.DmsModeEvent) (o : Out Dms.Dms Dms.DmsMsg)
        → SignSends o
        → SignSends (Dms.send_modes now es o)
    unfolding vikasa_demo.Sim.Dms.send_modes
    modes-Sends now [] o h = h
    modes-Sends now (e ∷ es) o h =
        modes-Sends now es _ (Sends-emit c P o.dev.controller o.sent _ refl mode h)

    faults-Sends :
        (now : ℕ) (es : List Dms.DmsFaultEvent) (o : Out Dms.Dms Dms.DmsMsg)
        → SignSends o
        → SignSends (Dms.send_faults now es o)
    unfolding vikasa_demo.Sim.Dms.send_faults
    faults-Sends now [] o h = h
    faults-Sends now (e ∷ es) o h = faults-Sends now es _ (
        Sends-emit c P o.dev.controller o.sent _ refl
          (if-cases P e.raised _ _ (λ _. raised) (λ _. cleared)) h)

    -- Neither the start nor the congestion touches the name of a sign.
    check-controller :
        (N : Runtime) (demand : Option (Demand N)) (now : ℕ) (d : Dms.Dms)
        → d.controller ≡ c
        → (Dms.check_congestion N demand now d).controller ≡ c
    unfolding vikasa_demo.Sim.Dms.check_congestion vikasa_demo.Sim.Dms.follow_congestion
    check-controller N none now d h = h
    check-controller N (some dem) now d h =
        let congested = N.le (N.lit 5 10) (congestion_level N dem now) in
        let cleared_or_same =
          if not congested && d.auto_advisory then Dms.congestion_cleared d else d in
        let IsNamed = λ (x : Dms.Dms). x.controller ≡ c in
        if-cases IsNamed d.scripted d (Dms.follow_congestion congested d) (λ _. h)
          (λ _.
            if-cases IsNamed (congested && Dms.is_normal d.mode) (Dms.congestion_ahead d)
              cleared_or_same (λ _. h)
              (λ _.
                if-cases IsNamed (not congested && d.auto_advisory) (Dms.congestion_cleared d) d
                  (λ _. h) (λ _. h)))

    start-controller : (now : ℕ) (d : Dms.Dms) → d.controller ≡ c → (Dms.start now d).controller ≡ c
    unfolding vikasa_demo.Sim.Dms.start
    start-controller now d h =
        if-cases (λ (x : Dms.Dms). x.controller ≡ c) d.started d _ (λ _. h) (λ _. h)

    pub dms-Sends :
        (N : Runtime) (demand : Option (Demand N)) (now : ℕ) (o : Out Dms.Dms Dms.DmsMsg)
        → SignSends o
        → SignSends (Dms.tick N demand now o)
    unfolding vikasa_demo.Sim.Dms.tick vikasa_demo.Sim.Dms.fire_faults
        vikasa_demo.Sim.Dms.fire_modes vikasa_demo.Sim.Dms.fire_periodic
    dms-Sends N demand now o h =
        let d = Dms.fire_periodic now (Dms.check_congestion N demand now (Dms.start now o.dev)) in
        let o1 = record o { dev = d } in
        let o2 = Dms.fire_modes now o1 in
        faults-Sends now o2.dev.pending_faults o2 (
          modes-Sends now d.pending_modes o1
            (check-controller N demand now _ (start-controller now o.dev h.0), h.1))

  pub gateway-Sends :
      (now : ℕ) (o : Out Gateway.Gateway Gateway.PollerHeartbeat)
      → P "vikasa.gateway.heartbeat.v1"
      → Sends c P o.dev.controller o.sent
      → Sends c P (Gateway.tick now o).dev.controller (Gateway.tick now o).sent
  unfolding vikasa_demo.Sim.Gateway.tick vikasa_demo.Sim.Gateway.heartbeat
  gateway-Sends now o p h =
      every_inv Gateway.gateway_heartbeat_period _ (omega arith) (Sends c P o.dev.controller)
        (λ at out k. Sends-emit c P o.dev.controller out _ refl p k) now _ o.sent h

  abbrev LaneSends : Reversible.Lane → Type 0
  LaneSends o = Sends c P o.dev.controller o.sent

  module _ (changed : P "vikasa.reversible-lane.lane-state-changed.v1") where
    lane-Sends :
        (now : ℕ) (s : Reversible.LaneFlowState) (t : Reversible.TravelDirection) (why : String)
        (o : Reversible.Lane)
        → LaneSends o
        → LaneSends (Reversible.send now s t why o)
    unfolding vikasa_demo.Sim.Reversible.send
    lane-Sends now s t why o h = Sends-emit c P o.dev.controller o.sent _ refl changed h

    advance-controller :
        (now : ℕ) (s : Reversible.LaneFlowState) (r : Reversible.ReversibleLane)
        → r.controller ≡ c
        → (Reversible.advance now s r).controller ≡ c
    unfolding vikasa_demo.Sim.Reversible.advance
    advance-controller now Reversible.lane_open r h =
        if-cases (λ (x : Reversible.ReversibleLane). x.controller ≡ c) _ _ r (λ _. h) (λ _. h)
    advance-controller now Reversible.in_transition r h =
        if-cases (λ (x : Reversible.ReversibleLane). x.controller ≡ c) _ _ r (λ _. h) (λ _. h)
    advance-controller now Reversible.unspecified r h = h

    pub reversible-Sends :
        (now : ℕ) (o : Reversible.Lane) → LaneSends o → LaneSends (Reversible.tick now o)
    unfolding vikasa_demo.Sim.Reversible.tick
    reversible-Sends now o h =
        let dev = o.dev in
        let opened = record o {
          dev = record dev {
            started = true;
            phase_start = now;
            state = Reversible.lane_open;
            direction = Reversible.northbound;
          };
        } in
        let r = Reversible.advance now dev.state dev in
        let o' = record o { dev = r } in
        let k : LaneSends o' = (advance-controller now dev.state dev h.0, h.1) in
        let moved =
          not (Reversible.same_state r.state dev.state)
          || not (Reversible.same_direction r.direction dev.direction) in
        let due = leb Reversible.rev_keepalive (now - r.last_emit) in
        let turned =
          Reversible.send now dev.state dev.direction (Reversible.reason r.state r.direction) o' in
        let kept = Reversible.send now dev.state dev.direction "schedule-keepalive" o' in
        if-cases LaneSends (not dev.started) _ (if moved then turned else if due then kept else o')
          (λ _. lane-Sends now Reversible.lane_open Reversible.northbound _ opened h)
          (λ _.
            if-cases LaneSends moved turned (if due then kept else o')
              (λ _. lane-Sends now dev.state dev.direction _ o' k)
              (λ _.
                if-cases LaneSends due kept o' (λ _. lane-Sends now dev.state dev.direction _ o' k)
                  (λ _. k)))
