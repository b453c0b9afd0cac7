-- ===== src/Sim/Gateway/Cadence.antt =====
-- The heartbeats of internal/sim/gateway.go against the schedule that they should follow.
use vikasa_demo.Base.{
  ℕ, ◌+◌, ◌*◌, ◌≤◌, ◌<◌, ◌≡◌, refl, ap, String, some, List, [], map, arith, every_split,
  every_future, every_near, every_done, every-slots, slots,
}
use vikasa_demo.Sim.Emitter.{Emission, Out, emit}
use vikasa_demo.Sim.Gateway.{
  gateway_heartbeat_period, PollerHeartbeat, Gateway, new_gateway, heartbeat, tick,
}

-- A started gateway emits the same heartbeats, and ends in the same state, whether it is ticked at
-- an instant in between or not.
pub tick-tick :
    (soon late started next : ℕ) (o : Out Gateway PollerHeartbeat)
    → soon ≤ late
    → o.dev.started_at ≡ some started
    → o.dev.next_heartbeat ≡ some next
    → tick late (tick soon o) ≡ tick late o
unfolding tick
tick-tick soon late started next o h s n =
    simp (s, n)
      (ap
        (λ (r : ℕ × List (Emission PollerHeartbeat)). record {
          dev = record {
            controller = o.dev.controller;
            started_at = some started;
            next_heartbeat = some r.0;
          };
          sent = r.1;
        })
        (every_split gateway_heartbeat_period _ (omega arith) soon late next o.sent h))

-- A new gateway ticked at `start` and then at `now` has emitted the heartbeats of the instants
-- `start + 15s`, `start + 30s`, … up to `now`, each once and in order, and no other.
pub tick_schedule :
    (controller : String) (start now : ℕ)
    → start ≤ now
    → (k : ℕ) × (now < start + gateway_heartbeat_period * (k + 1))
      × (start + gateway_heartbeat_period * k ≤ now)
      × ((tick now (tick start (record { dev = new_gateway controller; sent = [] }))).sent
          ≡ map
              (heartbeat controller start)
              (slots gateway_heartbeat_period k (start + gateway_heartbeat_period)))
unfolding tick new_gateway
tick_schedule controller start now h =
    let beat = λ (at : ℕ) (out : List (Emission PollerHeartbeat)).
      emit out (heartbeat controller start at) in
    let first = start + gateway_heartbeat_period in
    let (k, last, sent) =
      every-slots gateway_heartbeat_period beat (omega arith) (λ out. out)
        (heartbeat controller start) (λ at out. refl) now first [] in
    (
      k,
      omega (arith, last, every_future gateway_heartbeat_period beat (omega arith) now first []),
      omega (arith, last, every_near gateway_heartbeat_period beat (omega arith) now first []),
      rw (every_done gateway_heartbeat_period beat start first [] (omega arith)) sent,
    )
