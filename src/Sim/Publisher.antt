-- ===== src/Sim/Publisher.antt =====
-- internal/sim/publisher.go. The client of the local stream is a parameter: what its calls answer and
-- how they change it. A publish answers at once; its acknowledgement comes later, or fails.
pub mod Stream
use vikasa_demo.Base.{
  ℕ, ◌+◌, String, Bool, true, false, Result, ok, err, List, [], ◌∷◌, if◌then◌else◌, str_append,
}
use vikasa_demo.Sim.Emitter.{u64, Emission}
use vikasa_demo.Events.Subject.{EventError}
use vikasa_demo.Events.Wire.{Wire}
use vikasa_demo.Events.Envelope.{Envelope, Msg, new_envelope, message}

abbrev pub buffer_stream_name : String
buffer_stream_name = "VIKASA_BUFFER"

pub data StreamInfo : Type 0 where
  found not_found unknown : StreamInfo

pub record JetStream (W : Wire) : Type 1 where
  pub State : Type 0
  pub publish_msg_async : Msg W → State → State × Bool
  pub stream_info : String → State → StreamInfo
  -- AddStream with a name and the subjects of the stream
  pub add_stream : String → String → State → State × Bool

module _ (W : Wire) (J : JetStream W) where
  pub record Publisher : Type 0 where
    pub dot : String
    pub district : String
    pub cabinet : String
    pub js : J.State
    pub dropped : ℕ

  abbrev pub buffer_subject : String → String → String → String
  buffer_subject dot district cabinet = str_append "vikasa." (
      str_append dot
        (str_append "." (str_append district (str_append "." (str_append cabinet ".>")))))

  abbrev pub bootstrap : StreamInfo → String → J.State → J.State × Bool
  bootstrap found subject s = (s, true)
  bootstrap unknown subject s = (s, false)
  bootstrap not_found subject s = J.add_stream buffer_stream_name subject s

  -- EnsureBuffer: the stream after it, and whether there was no error
  unfoldable pub ensure_buffer : String → String → String → J.State → J.State × Bool
  ensure_buffer dot district cabinet s =
      bootstrap (J.stream_info buffer_stream_name s) (buffer_subject dot district cabinet) s

  -- drop, and the handler of a publish whose acknowledgement fails
  unfoldable pub drop : Publisher → Publisher
  drop p = record p { dropped = u64 (p.dropped + 1) }

  abbrev pub publish : Envelope → Publisher → Publisher
  publish env p =
      let (s, sent) = J.publish_msg_async (message W env) p.js in
      if sent then record p { js = s } else drop (record p { js = s })

  abbrev pub publish_built : Result EventError Envelope → Publisher → Publisher
  publish_built (ok env) p = publish env p
  publish_built (err e) p = drop p

  unfoldable pub emit : Emission W.Message → Publisher → Publisher
  unfolding drop
  emit e p =
      publish_built (new_envelope W p.dot p.district p.cabinet e.controller e.ce_type e.at e.msg) p

  -- What happens to a publisher, one after the other: an event is emitted; the acknowledgement of a
  -- publish fails, and the handler of NewPublisher runs; or the client moves on by itself. With the
  -- last two the client comes into any state.
  pub data Occasion : Type 0 where
    emits : Emission W.Message → Occasion
    ack_failed moved_on : J.State → Occasion

  unfoldable pub occur : Occasion → Publisher → Publisher
  unfolding emit drop
  occur (emits e) p = emit e p
  occur (ack_failed s) p = drop (record p { js = s })
  occur (moved_on s) p = record p { js = s }

  unfoldable pub occur_all : List Occasion → Publisher → Publisher
  unfolding occur
  occur_all [] p = p
  occur_all (h ∷ hs) p = occur_all hs (occur h p)
