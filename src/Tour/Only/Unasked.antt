-- ===== src/Tour/Only/Unasked.antt =====
-- `--only` with names of standard phases only (cmd/democtl/main.go).
use vikasa_demo.Base.{
  Bool, false, ◌||◌, String, List, [], ◌∷◌, ◌++◌, str_eq, if◌then◌else◌, ok, string_eq, ◌≡◌, refl,
  split_on, arith, Bool-cases, inl, inr,
}
use vikasa_demo.Verify.Answers.{trim_space}
use vikasa_demo.Verify.Docker.{is_comma}
use vikasa_demo.Tour.Filter.{Want}
use vikasa_demo.Tour.Only.{is_ai_phase, split_names, split_only_names}
use vikasa_demo.Tour.Only.Sorted.{trimmed, has_ai, names_of_only}

split_names_unasked :
    (raws : List String) (ai : Bool) (std : List String) (w : Want)
    → has_ai (trimmed raws) ≡ false
    → (std' : List String) × (split_names raws ai std w ≡ ok (std', w))
unfolding split_names
split_names_unasked [] ai std w h = (std, refl)
split_names_unasked (raw ∷ raws) ai std w h =
    let name = trim_space raw in
    let e : is_ai_phase name ≡ false = ground (arith, h) in
    let (std', at) =
      split_names_unasked raws ai
        (if str_eq name "" || is_ai_phase name then std else std ++ name ∷ []) w
        (ground (arith, h)) in
    (std', rw e (rw e at at))

-- Names of which none is the assistant's leave the set of the assistant empty.
pub split_only_names_unasked :
    (only : String) (ai : Bool)
    → has_ai (names_of_only only) ≡ false
    → (std : List String) × (split_only_names only ai ≡ ok (std, []))
unfolding split_only_names
split_only_names_unasked only ai h = elim (Bool-cases (str_eq only "")) [
  | inl e ↦ ([], rw e refl)
  | inr e ↦
      let (std, at) = split_names_unasked (split_on is_comma only) ai [] [] (rw e at h) in
      (std, rw e at)
]
