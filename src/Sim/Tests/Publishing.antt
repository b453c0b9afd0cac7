-- ===== src/Sim/Tests/Publishing.antt =====
-- The publisher at concrete inputs, over a stream with room for a number of messages.
use vikasa_demo.Base.{ℕ, zero, suc, String, Bool, true, false, List, [], ◌∷◌, ◌++◌, arith}
use vikasa_demo.Sim.Emitter.{Emission}
use vikasa_demo.Events.Paper.{paper}
use vikasa_demo.Events.Envelope.{Msg}
use vikasa_demo.Sim.Publisher.{
  JetStream, found, Publisher, Occasion, emits, ack_failed, moved_on, occur_all,
}
use vikasa_demo.Sim.Publisher.Stream.{Balances, occur_all-Balances}

-- the room and the messages
abbrev Store : Type 0
Store = ℕ × List (Msg paper)

abbrev put_message : Msg paper → Store → Store × Bool
put_message m (zero, ms) = ((zero, ms), false)
put_message m (suc n, ms) = ((n, ms ++ m ∷ []), true)

abbrev store : JetStream paper
store = record {
  State = Store;
  publish_msg_async = put_message;
  stream_info = λ name s. found;
  add_stream = λ name subject s. (s, true);
}

abbrev cabinet : Publisher paper store
cabinet = record {
  dot = "mardot";
  district = "d1";
  cabinet = "cab-i85-001";
  js = (1, []);
  dropped = 0;
}

abbrev beat : ℕ → String → Emission String
beat at ce_type = record { controller = "gw"; ce_type = ce_type; at = at; msg = "up" }

-- One is taken over and its acknowledgement fails; one has a bad type; one is taken over in the room
-- that is made, and one too many is refused.
abbrev morning : List (Occasion paper store)
morning =
    emits (beat 3 "vikasa.gateway.heartbeat.v1")
    ∷ ack_failed (0, [])
    ∷ emits (beat 4 "heartbeat")
    ∷ moved_on (1, [])
    ∷ emits (beat 5 "vikasa.gateway.heartbeat.v1")
    ∷ emits (beat 6 "vikasa.gateway.heartbeat.v1")
    ∷ []

occur_all-Balances_example :
    Balances paper store morning cabinet (occur_all paper store morning cabinet)
occur_all-Balances_example =
    occur_all-Balances paper store morning cabinet
      (omega arith, (omega arith, (omega arith, (omega arith, tt)))) (omega arith)
