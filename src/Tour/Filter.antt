-- ===== src/Tour/Filter.antt =====
-- internal/tour/tour.go: FilterPhases.
pub mod Selection
use vikasa_demo.Base.{
  Bool, true, false, String, List, [], ◌∷◌, Option, none, some, if◌then◌else◌, str_eq, Result, ok,
  err, Dict, get, put, remove, string_eq, is_nonempty, map,
}
use vikasa_demo.Verify.Answers.{trim_space}
use vikasa_demo.Tour.Stage.{Stage}
use vikasa_demo.Tour.Phase.{Phase}

abbrev pub Want : Type 0
Want = Dict String (Unit {0})

-- the loop over the names
unfoldable pub wanted : List String → Want → Want
unfolding trim_space
wanted [] want = want
wanted (name ∷ names) want =
    let n = trim_space name in wanted names (if str_eq n "" then want else put n tt want)

abbrev pub is_there : Option (Unit {0}) → Bool
is_there none = false
is_there (some _) = true

unfoldable pub is_wanted : String → Want → Bool
is_wanted name want = is_there (get name want)

module _ (T : Stage) where
  -- the loop over the phases: those that are taken, and the names that are left
  unfoldable pub take_wanted : List (Phase T) → Want → List (Phase T) × Want
  unfolding is_wanted
  take_wanted [] want = ([], want)
  take_wanted (p ∷ ps) want =
      let found = is_wanted p.name want in
      let (rest, left) = take_wanted ps (if found then remove p.name want else want) in
      (if found then p ∷ rest else rest, left)

  abbrev pub names_of : Want → List String
  names_of = map (λ (e : String × Unit {0}). e.0)

  -- The error has the names that no phase has; Go gives them in any order.
  unfoldable pub filter_phases :
      List (Phase T) → List String → Result (List String) (List (Phase T))
  unfolding wanted take_wanted
  filter_phases phases only =
      let want = wanted only [] in
      let (out, left) = take_wanted phases want in
      if is_nonempty want
      then (if is_nonempty left then err (names_of left) else ok out)
      else ok phases
