-- ===== src/Sim/Gateway.antt =====
-- internal/sim/gateway.go: the heartbeat of a cabinet.
pub mod Cadence
use vikasa_demo.Base.{
  ℕ, ◌+◌, ◌-◌, ◌*◌, ◌/◌, String, Option, none, some, List, Bool, true, or_else, every,
}
use vikasa_demo.Sim.Emitter.{second, Emission, Out, emit}

abbrev pub gateway_heartbeat_period : ℕ
gateway_heartbeat_period = 15 * second

pub record PollerHeartbeat : Type 0 where
  pub poller_id : String
  pub timestamp_unix_ms : ℕ
  pub uptime_seconds : ℕ
  pub devices_total : ℕ
  pub devices_healthy : ℕ
  pub nats_connected : Bool

pub record Gateway : Type 0 where
  pub controller : String
  pub started_at : Option ℕ
  pub next_heartbeat : Option ℕ

unfoldable pub new_gateway : String → Gateway
new_gateway controller = record {
  controller = controller;
  started_at = none;
  next_heartbeat = none;
}

-- The heartbeat of the deadline `at`. A deadline is never before the start, so the truncated `-`
-- is the source's.
unfoldable pub heartbeat : String → ℕ → ℕ → Emission PollerHeartbeat
heartbeat controller started_at at = record {
  controller = controller;
  ce_type = "vikasa.gateway.heartbeat.v1";
  at = at;
  msg = record {
    poller_id = controller;
    timestamp_unix_ms = at / 1_000_000;
    uptime_seconds = (at - started_at) / second;
    devices_total = 1;
    devices_healthy = 1;
    nats_connected = true;
  };
}

unfoldable pub tick : ℕ → Out Gateway PollerHeartbeat → Out Gateway PollerHeartbeat
tick now o =
    let started_at = or_else o.dev.started_at now in
    let (next, sent) =
      every gateway_heartbeat_period (λ at out. emit out (heartbeat o.dev.controller started_at at))
        now (or_else o.dev.next_heartbeat (now + gateway_heartbeat_period)) o.sent in
    record {
      dev = record o.dev { started_at = some started_at; next_heartbeat = some next };
      sent = sent;
    }
