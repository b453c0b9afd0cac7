-- ===== src/Events/Wire.antt =====
-- What internal/events takes from elsewhere: protocol buffers, SHA-256, Go's time format and the
-- headers of the message client. The laws are those that the program relies on: RFC 3339 with
-- nanoseconds writes every time before the year 10000 exactly, a header that is set is the one that
-- is read, and a digest in hex is not empty.
use vikasa_demo.Base.{ℕ, false, ◌*◌, ◌<◌, ◌≡◌, String, Option, some, str_eq, if◌then◌else◌}

-- nanoseconds from 1970 to the year 10000
abbrev pub time_end : ℕ
time_end = 253_402_300_800 * 1_000_000_000

pub record Wire : Type 1 where
  pub Message : Type 0
  pub Header : Type 0
  pub marshal : Message → Option String
  pub sha256_hex : String → String
  pub format_time : ℕ → String
  pub parse_time : String → Option ℕ
  pub no_header : Header
  pub set : String → String → Header → Header
  pub get : String → Header → String
  pub parse-format : (t : ℕ) → t < time_end → parse_time (format_time t) ≡ some t
  pub get-set :
      (k j v : String) (h : Header) → get j (set k v h) ≡ (if str_eq k j then v else get j h)
  pub hex_nonempty : (s : String) → str_eq (sha256_hex s) "" ≡ false
