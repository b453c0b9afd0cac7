-- ===== src/Events/Tests.antt =====
-- The events at concrete inputs.
use vikasa_demo.Base.{◌≡◌, refl, String, arith, string_eq, join, split, ok, err}
use vikasa_demo.Events.Subject.{
  SubjectParts, subject, service_event, parse_subject, invalid_token, is_token,
}
use vikasa_demo.Events.Paper.{paper}
use vikasa_demo.Events.Envelope.{Envelope, new_envelope, from_msg, message}
use vikasa_demo.Events.Routing.{parse_subject-subject, AreTokens, share_tokens}
use vikasa_demo.Events.Delivery.{from_msg-new_envelope}

abbrev heartbeat_subject : String
heartbeat_subject = "vikasa.mardot.d1.cab-i85-001.gateway.gw.heartbeat"

heartbeat_subject_written :
    subject "mardot" "d1" "cab-i85-001" "gateway" "gw" "heartbeat" ≡ ok heartbeat_subject
unfolding subject is_token join
heartbeat_subject_written = refl

abbrev gateway_parts : SubjectParts
gateway_parts = record {
  dot = "mardot";
  district = "d1";
  cabinet = "cab-i85-001";
  service = "gateway";
  controller = "gw";
  event = "heartbeat";
}

parse_subject-subject_example : parse_subject heartbeat_subject ≡ ok gateway_parts
parse_subject-subject_example =
    parse_subject-subject "mardot" "d1" "cab-i85-001" "gateway" "gw" "heartbeat" heartbeat_subject
      heartbeat_subject_written

bad_cabinet : subject "mardot" "d1" "Cab 1" "gateway" "gw" "heartbeat" ≡ err (invalid_token "Cab 1")
unfolding subject is_token
bad_cabinet = refl

share_tokens_valid :
    AreTokens (share_tokens "mardot" "i85" "cab-i85-001" "gateway" "gw" "heartbeat")
unfolding is_token
share_tokens_valid = (refl, (refl, (refl, (refl, (refl, (refl, (refl, tt)))))))

abbrev heartbeat_envelope : Envelope
heartbeat_envelope = record {
  id = "e3b0";
  ce_type = "vikasa.gateway.heartbeat.v1";
  source = "//mardot/d1/cab-i85-001/gw";
  subject = heartbeat_subject;
  time = 3;
  payload = "up";
}

heartbeat_wrapped :
    new_envelope paper "mardot" "d1" "cab-i85-001" "gw" "vikasa.gateway.heartbeat.v1" 3 "up"
    ≡ ok heartbeat_envelope
unfolding new_envelope service_event subject is_token join split
heartbeat_wrapped = refl

from_msg-new_envelope_example :
    (from_msg paper (message paper heartbeat_envelope) ≡ ok heartbeat_envelope)
    × ((service : String) × (event : String) × (service_event "vikasa.gateway.heartbeat.v1"
          ≡ ok (service, event))
        × (parse_subject heartbeat_subject
            ≡ ok (record {
              dot = "mardot";
              district = "d1";
              cabinet = "cab-i85-001";
              service = service;
              controller = "gw";
              event = event;
            })))
from_msg-new_envelope_example =
    from_msg-new_envelope paper "mardot" "d1" "cab-i85-001" "gw" "vikasa.gateway.heartbeat.v1" 3
      "up" {e = heartbeat_envelope} (omega arith) heartbeat_wrapped
