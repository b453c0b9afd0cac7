-- ===== src/Events/Envelope.antt =====
-- internal/events/envelope.go. A byte slice is a text, and a time a number of nanoseconds.
use vikasa_demo.Base.{
  ℕ, ◌||◌, String, Option, none, some, str_eq, str_append, if◌then◌else◌, Result, ok, err, ◌>>=◌,
}
use vikasa_demo.Events.Subject.{
  EventError, marshal_failed, bad_time, missing_headers, subject, service_event,
}
use vikasa_demo.Events.Wire.{Wire}

pub record Envelope : Type 0 where
  pub id : String
  pub ce_type : String
  pub source : String
  pub subject : String
  pub time : ℕ
  pub payload : String

abbrev pub or_err {ℓ} : {A : Type ℓ} → EventError → Option A → Result EventError A
or_err e none = err e
or_err e (some a) = ok a

abbrev pub slash : String → String → String
slash a b = str_append a (str_append "/" b)

module _ (W : Wire) where
  -- a nats.Msg
  pub record Msg : Type 0 where
    pub subject : String
    pub header : W.Header
    pub payload : String

  unfoldable pub new_envelope :
      String → String → String → String → String → ℕ → W.Message → Result EventError Envelope
  new_envelope dot district cabinet controller ce_type occurred_at msg = do
    payload ← or_err marshal_failed (W.marshal msg)
    (service, event) ← service_event ce_type
    subj ← subject dot district cabinet service controller event
    let source = str_append "//" (slash dot (slash district (slash cabinet controller)))
    ok (record {
      id =
          W.sha256_hex (
            str_append ce_type
              (str_append source (str_append (W.format_time occurred_at) payload)));
      ce_type = ce_type;
      source = source;
      subject = subj;
      time = occurred_at;
      payload = payload;
    })

  unfoldable pub headers : Envelope → W.Header
  headers e = W.set "Nats-Msg-Id" e.id (
      W.set "content-type" "application/protobuf" (
        W.set "ce-time" (W.format_time e.time) (
          W.set "ce-source" e.source (
            W.set "ce-type" e.ce_type
              (W.set "ce-id" e.id (W.set "ce-specversion" "1.0" W.no_header))))))

  unfoldable pub from_msg : Msg → Result EventError Envelope
  from_msg m = do
    t ← or_err bad_time (W.parse_time (W.get "ce-time" m.header))
    let e : Envelope = record {
      id = W.get "ce-id" m.header;
      ce_type = W.get "ce-type" m.header;
      source = W.get "ce-source" m.header;
      subject = m.subject;
      time = t;
      payload = m.payload;
    }
    if str_eq e.id "" || str_eq e.ce_type "" then err missing_headers else ok e

  -- the message that a publisher makes of an envelope
  abbrev pub message : Envelope → Msg
  message e = record { subject = e.subject; header = headers e; payload = e.payload }
