-- ===== src/Fleet/Size.antt =====
-- internal/fleetsize/fleetsize.go.
use vikasa_demo.Base.{Bool, true, not, ◌||◌, String, str_eq, Result, ok, err, if◌then◌else◌}

pub data Size : Type 0 where
  small medium large : Size

-- The error is the value of SIZE that is refused.
unfoldable pub resolve : (String → String) → Result String Size
resolve env =
    let s = env "SIZE" in
    if str_eq s "small"
    then ok small
    else if str_eq s "medium"
    then ok medium
    else if str_eq s "large"
    then ok large
    else if str_eq s ""
    then (if str_eq (env "SCALE") "1" then ok small else ok large)
    else err s

abbrev pub is_set : String → Bool
is_set s = not (str_eq s "")

unfoldable pub keep : Size → String → String → Bool → Bool
keep small corridor route expose = is_set corridor
keep medium corridor route expose = is_set corridor || (is_set route || expose)
keep large corridor route expose = true
