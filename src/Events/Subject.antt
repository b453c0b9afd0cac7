-- ===== src/Events/Subject.antt =====
-- internal/events/subject.go. An error is a value that says what was rejected; its text is not
-- modelled.
use vikasa_demo.Base.{
  Bool, true, false, ◌&&◌, ◌||◌, List, [], ◌∷◌, String, Char, code, leb, ◌==◌, str_eq, str_append,
  if◌then◌else◌, Result, ok, err, ◌>>◌, split, join,
}

pub data EventError : Type 0 where
  invalid_token malformed_type not_internal not_share : String → EventError
  marshal_failed bad_time missing_headers : EventError

-- `^[a-z0-9][a-z0-9-]*$`
abbrev pub is_alphanumeric : Char → Bool
is_alphanumeric c = leb b'a' (code c) && leb (code c) b'z' || leb b'0' (code c) && leb (code c) b'9'

abbrev pub is_token_rest : String → Bool
is_token_rest String.[] = true
is_token_rest (String.◌∷◌ c s) = (is_alphanumeric c || code c == b'-') && is_token_rest s

unfoldable pub is_token : String → Bool
is_token String.[] = false
is_token (String.◌∷◌ c s) = is_alphanumeric c && is_token_rest s

-- The loop over the tokens: the first that does not match is the error.
unfoldable pub check_tokens : List String → Result EventError (Unit {0})
check_tokens [] = ok tt
check_tokens (t ∷ ts) =
    let rest = check_tokens ts in if is_token t then rest else err (invalid_token t)

unfoldable pub subject :
    String → String → String → String → String → String → Result EventError String
unfolding check_tokens
subject dot district cabinet service controller event = do
  let tokens = dot ∷ district ∷ cabinet ∷ service ∷ controller ∷ event ∷ []
  check_tokens tokens
  ok (str_append "vikasa." (join tokens))

abbrev pub has_v : String → Bool
has_v String.[] = false
has_v (String.◌∷◌ c s) = code c == b'v'

abbrev pub type_parts : String → List String → Result EventError (String × String)
type_parts ce_type (a ∷ service ∷ event ∷ version ∷ []) =
    if str_eq a "vikasa" && has_v version then ok (service, event) else err (malformed_type ce_type)
type_parts ce_type _ = err (malformed_type ce_type)

-- the service and the event of a type
unfoldable pub service_event : String → Result EventError (String × String)
service_event ce_type = type_parts ce_type (split ce_type)

pub record SubjectParts : Type 0 where
  pub dot : String
  pub district : String
  pub cabinet : String
  pub service : String
  pub controller : String
  pub event : String

abbrev pub internal_parts : String → List String → Result EventError SubjectParts
internal_parts s (a ∷ dot ∷ district ∷ cabinet ∷ service ∷ controller ∷ event ∷ []) =
    if str_eq a "vikasa"
    then ok (record {
      dot = dot;
      district = district;
      cabinet = cabinet;
      service = service;
      controller = controller;
      event = event;
    })
    else err (not_internal s)
internal_parts s _ = err (not_internal s)

unfoldable pub parse_subject : String → Result EventError SubjectParts
parse_subject s = internal_parts s (split s)

abbrev pub share_parts : String → List String → Result EventError SubjectParts
share_parts s (a ∷ dot ∷ b ∷ corridor ∷ cabinet ∷ service ∷ controller ∷ event ∷ []) =
    if str_eq a "vikasa" && str_eq b "share"
    then ok (record {
      dot = dot;
      district = str_append "share-" corridor;
      cabinet = cabinet;
      service = service;
      controller = controller;
      event = event;
    })
    else err (not_share s)
share_parts s _ = err (not_share s)

unfoldable pub parse_share_subject : String → Result EventError SubjectParts
parse_share_subject s = share_parts s (split s)
