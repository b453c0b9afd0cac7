-- ===== src/Sink/Decoder.antt =====
-- What the handlers of internal/sink take from the generated protocol buffers and from Go: decoding
-- a payload as a message of a kind, the getters of a message by the name of the field (a getter of an
-- enum is read by its name), and reading a decimal text as a float32.
use vikasa_demo.Base.{ℕ, Bool, String, Option, List, ℤ}

pub record Decoder : Type 1 where
  pub Message : Type 0
  pub Float : Type 0
  pub unmarshal : String → String → Option Message
  pub text_field : String → Message → String
  pub num_field : String → Message → ℕ
  pub int_field : String → Message → ℤ
  pub bool_field : String → Message → Bool
  pub list_field : String → Message → List Message
  pub parse_float : String → Option Float
  pub zero_float : Float
  -- strconv.FormatUint and FormatInt in base 10
  pub format_uint : ℕ → String
  pub format_int : ℤ → String
