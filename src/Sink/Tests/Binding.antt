-- ===== src/Sink/Tests/Binding.antt =====
-- The binding of a durable consumer at concrete inputs: the stream appears after some waits, with a
-- durable consumer of an earlier limit or none.
use vikasa_demo.Base.{
  ℕ, zero, suc, ◌≤◌, ◌≡◌, refl, Bool, true, false, Option, none, some, arith, ◌==◌, if◌then◌else◌,
}
use vikasa_demo.Sink.Bind.{Stream, heal_config_mismatch, gave_up, bind_stream}
use vikasa_demo.Sink.Bind.Attempts.{Tries, here, repaired, waited, bound_after, bind_stream-Tries}
use vikasa_demo.Sink.Bind.Runs.{Run, bind_stream_bounds}

-- the waits until the stream is there, and the limit of the durable consumer on it
abbrev Server : Type 0
Server = ℕ × Option ℕ

abbrev info : Server → Option ℕ
info (suc n, o) = none
info (zero, o) = o

abbrev bind_to : ℕ → Server → Server × Option Bool
bind_to limit (suc n, o) = ((suc n, o), none)
bind_to limit (zero, none) = ((zero, some limit), some true)
bind_to limit (zero, some n) = ((zero, some n), if n == limit then some true else none)

abbrev later : Server → Server
later (suc n, o) = (n, o)
later (zero, o) = (zero, o)

abbrev server : Stream
server = record {
  State = Server;
  Subscription = Bool;
  pull_subscribe = bind_to;
  consumer_info = info;
  update_consumer = λ limit s. ((s.0, some limit), true);
  delete_consumer = λ s. ((s.0, none), true);
  wait = later;
  cancelled = λ s. false;
}

bind_stream_bounds_example :
    let b = bind_stream server 32_000 (100, none) in
    (attempts : ℕ) × Run server 32_000 0 attempts b.heals b.waits (100, none) b.outcome b.state
    × (attempts ≤ 60)
    × (b.heals ≤ 3)
    × (b.outcome ≡ gave_up → attempts ≡ 60)
bind_stream_bounds_example = bind_stream_bounds server 32_000 (100, none)

-- The stream is there after two waits, with the limit of an earlier deployment.
late_stale : Tries server 32_000 1 2 (2, some 65_536) (0, some 32_000)
unfolding heal_config_mismatch
late_stale =
    waited 1 1 _ (2, some 65_536) (2, some 65_536) _ refl refl refl
      (waited 1 0 _ (1, some 65_536) (1, some 65_536) _ refl refl refl
        (repaired 0 0 _ (0, some 65_536) (0, some 32_000) _ refl refl (here _)))

bind_stream-Tries_example :
    bind_stream server 32_000 (2, some 65_536) ≡ bound_after server 32_000 true (0, some 32_000) 1 2
bind_stream-Tries_example =
    bind_stream-Tries server 32_000 1 2 (2, some 65_536) (0, some 32_000) true (0, some 32_000)
      late_stale (omega arith) (omega arith) refl

abbrev stale : Server
stale = (0, some 65_536)

abbrev limit : ℕ
limit = 32_000
