-- ===== src/Sink/Handlers.antt =====
-- internal/sink/handlers.go: how an envelope of each type becomes rows of its table. A uint8 or uint16
-- keeps the low bits of the message's number.
use vikasa_demo.Base.{
  ℕ, ◌%◌, Bool, true, false, String, Option, none, some, List, [], ◌∷◌, ◌++◌, map, Result, ok, err,
  ◌>>=◌,
}
use vikasa_demo.Events.Subject.{EventError, SubjectParts}
use vikasa_demo.Events.Envelope.{Envelope}
use vikasa_demo.Sink.Decoder.{Decoder}

pub data SinkError : Type 0 where
  unknown_type : String → SinkError
  bad_subject : EventError → SinkError
  bad_payload : String → SinkError

abbrev pub envelope_columns : List String
envelope_columns =
    "ce_id" ∷ "ce_time" ∷ "occurred_at" ∷ "dot" ∷ "district" ∷ "cabinet_id" ∷ "device_id" ∷ []

abbrev pub cols : List String → List String
cols payload = envelope_columns ++ payload

abbrev pub b2u : Bool → ℕ
b2u true = 1
b2u false = 0

module _ (D : Decoder) where
  open D use {
    Message, Float, unmarshal, text_field, num_field, int_field, bool_field, list_field,
    parse_float, zero_float, format_uint, format_int,
  }

  -- a value of a row
  pub data Value : Type 0 where
    text : String → Value
    num time : ℕ → Value
    real : Float → Value

  pub record Handler : Type 0 where
    pub table : String
    pub columns : List String
    pub extract : Envelope → SubjectParts → Result SinkError (List (List Value))

  abbrev pub prefix : Envelope → SubjectParts → List Value
  prefix env p =
      text env.id
      ∷ time env.time
      ∷ time env.time
      ∷ text p.dot
      ∷ text p.district
      ∷ text p.cabinet
      ∷ text p.controller
      ∷ []

  abbrev pub float_or : Option Float → Float
  float_or none = zero_float
  float_or (some x) = x

  unfoldable pub parse_f32 : String → Float
  parse_f32 s = float_or (parse_float s)

  abbrev pub decoded : Envelope → Option Message → Result SinkError Message
  decoded env none = err (bad_payload env.ce_type)
  decoded env (some m) = ok m

  -- A handler that decodes a message of a kind and makes rows of what follows the prefix.
  unfoldable pub decoding :
      String
      → (Message → List (List Value))
      → Envelope
      → SubjectParts
      → Result SinkError (List (List Value))
  decoding kind rows env p = do
    m ← decoded env (unmarshal kind env.payload)
    ok (map (λ row. prefix env p ++ row) (rows m))

  abbrev pub one : (Message → List Value) → Message → List (List Value)
  one row m = row m ∷ []

  abbrev pub u8 : String → Message → Value
  u8 f m = num (num_field f m % 256)

  abbrev pub u16 : String → Message → Value
  u16 f m = num (num_field f m % 65536)

  abbrev pub str : String → Message → Value
  str f m = text (text_field f m)

  abbrev pub flag : String → Message → Value
  flag f m = num (b2u (bool_field f m))

  abbrev pub f32 : String → Message → Value
  f32 f m = real (parse_f32 (text_field f m))

  abbrev pub lane_row : Message → List Value
  lane_row ln =
      text (format_uint (num_field "lane_id" ln))
      ∷ u16 "interval_duration_s" ln
      ∷ u16 "volume" ln
      ∷ f32 "speed_average_kmh" ln
      ∷ f32 "occupancy" ln
      ∷ f32 "density" ln
      ∷ []

  abbrev pub class_rows : Message → List Message → List (List Value)
  class_rows zone [] = []
  class_rows zone (cc ∷ rest) =
      (str "zone_id" zone ∷ str "class" cc ∷ u16 "count" cc ∷ []) ∷ class_rows zone rest

  abbrev pub zone_rows : List Message → List (List Value)
  zone_rows [] = []
  zone_rows (z ∷ rest) = class_rows z (list_field "class_count" z) ++ zone_rows rest

  abbrev pub handler : String → List String → String → (Message → List (List Value)) → Handler
  handler table payload kind rows = record {
    table = table;
    columns = cols payload;
    extract = decoding kind rows;
  }
