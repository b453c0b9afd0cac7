-- ===== src/Tour/Only.antt =====
-- cmd/democtl/main.go: splitOnlyNames, which sorts the names of `--only` into those of the standard
-- phases and those of the assistant's.
pub mod Sorted
pub mod Unasked
use vikasa_demo.Base.{
  Bool, not, ◌&&◌, ◌||◌, String, List, [], ◌∷◌, ◌++◌, str_eq, if◌then◌else◌, Result, ok, err,
  split_on, put, string_eq,
}
use vikasa_demo.Verify.Answers.{trim_space}
use vikasa_demo.Verify.Docker.{is_comma}
use vikasa_demo.Tour.Filter.{Want}
use vikasa_demo.Tour.Ai.{phase_ai_build, phase_ai_qa}

abbrev pub is_ai_phase : String → Bool
is_ai_phase name = str_eq name phase_ai_build || str_eq name phase_ai_qa

-- The loop over the names, with the two lists so far. The error is the name that needs `--ai`.
unfoldable pub split_names :
    List String → Bool → List String → Want → Result String (List String × Want)
unfolding trim_space
split_names [] ai std ai_only = ok (std, ai_only)
split_names (raw ∷ names) ai std ai_only =
    let name = trim_space raw in
    let std' = if str_eq name "" || is_ai_phase name then std else std ++ name ∷ [] in
    let ai_only' = if is_ai_phase name then put name tt ai_only else ai_only in
    let rest = split_names names ai std' ai_only' in
    if is_ai_phase name && not ai then err name else rest

unfoldable pub split_only_names : String → Bool → Result String (List String × Want)
unfolding split_names
split_only_names only ai =
    if str_eq only "" then ok ([], []) else split_names (split_on is_comma only) ai [] []
