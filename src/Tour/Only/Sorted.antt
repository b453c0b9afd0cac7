-- ===== src/Tour/Only/Sorted.antt =====
-- The two lists of cmd/democtl's splitOnlyNames, described by the names one by one.
use vikasa_demo.Base.{
  Bool, true, false, not, ◌&&◌, ◌||◌, String, List, [], ◌∷◌, ◌++◌, str_eq, if◌then◌else◌, Result,
  ok, err, split_on, get, put, get-put, string_eq, ◌≡◌, refl, sym, ◌∙◌, Bool-cases, inl, inr,
  append_assoc, append-nil, eq_iff, arith,
}
use vikasa_demo.Verify.Answers.{trim_space}
use vikasa_demo.Verify.Docker.{is_comma}
use vikasa_demo.Tour.Filter.{Want, is_wanted}
use vikasa_demo.Tour.Only.{is_ai_phase, split_names, split_only_names}

-- the names without spaces around them
abbrev pub trimmed : List String → List String
trimmed [] = []
trimmed (raw ∷ raws) = trim_space raw ∷ trimmed raws

abbrev pub std_of : List String → List String
std_of [] = []
std_of (name ∷ names) =
    let rest = std_of names in if str_eq name "" || is_ai_phase name then rest else name ∷ rest

-- the names of the assistant's phases among the names
abbrev pub names_ai : List String → String → Bool
names_ai [] k = false
names_ai (name ∷ names) k = is_ai_phase name && str_eq name k || names_ai names k

abbrev pub has_ai : List String → Bool
has_ai [] = false
has_ai (name ∷ names) = is_ai_phase name || has_ai names

-- A split that succeeds, with what it gives.
pub record IsSorted (names : List String) (r : List String × Want) : Type 0 where
  pub std : r.0 ≡ std_of names
  pub ai : (k : String) → is_wanted k r.1 ≡ names_ai names k

-- The same with what was there before.
record Grows (names : List String) (std : List String) (w : Want) (r : List String × Want)
    : Type 0 where
  std_grows : r.0 ≡ std ++ std_of names
  ai_grows : (k : String) → is_wanted k r.1 ≡ (is_wanted k w || names_ai names k)

is_wanted-put :
    (k name : String) (w : Want) → is_wanted k (put name tt w) ≡ (str_eq name k || is_wanted k w)
unfolding is_wanted
is_wanted-put k name w = ground (arith, get-put name k tt w, eq_iff name k)

grow :
    (name : String) (names std : List String) (w : Want) (r : List String × Want)
    → Grows names
        (if str_eq name "" || is_ai_phase name then std else std ++ name ∷ [])
        (if is_ai_phase name then put name tt w else w)
        r
    → Grows (name ∷ names) std w r
grow name names std w r h = record {
  std_grows = elim (Bool-cases (str_eq name "" || is_ai_phase name)) [
    | inl e ↦ rw e (rw e at h.std_grows)
    | inr e ↦ rw e ((rw e at h.std_grows) ∙ append_assoc std (name ∷ []) (std_of names))
  ];
  ai_grows = λ k. elim (Bool-cases (is_ai_phase name)) [
    | inl e ↦ ground (arith, e, rw e at h.ai_grows k, is_wanted-put k name w)
    | inr e ↦ ground (arith, e, rw e at h.ai_grows k)
  ];
}

split_names-Grows :
    (raws : List String) (ai : Bool) (std : List String) (w : Want)
    → (has_ai (trimmed raws) && not ai) ≡ false
    → (r : List String × Want) × (split_names raws ai std w ≡ ok r) × Grows (trimmed raws) std w r
unfolding split_names
split_names-Grows [] ai std w h =
    ((std, w), refl, record { std_grows = sym (append-nil std); ai_grows = λ k. ground arith })
split_names-Grows (raw ∷ raws) ai std w h =
    let name = trim_space raw in
    let std' = if str_eq name "" || is_ai_phase name then std else std ++ name ∷ [] in
    let w' = if is_ai_phase name then put name tt w else w in
    let (r, e, g) = split_names-Grows raws ai std' w' (ground (arith, h)) in
    (r, ground (arith, h, e), grow name (trimmed raws) std w r g)

split_names-refused :
    (raws : List String) (ai : Bool) (std : List String) (w : Want)
    → (has_ai (trimmed raws) && not ai) ≡ true
    → (name : String) × (split_names raws ai std w ≡ err name) × (is_ai_phase name ≡ true)
unfolding split_names
split_names-refused [] ai std w h = absurd (cc)
split_names-refused (raw ∷ raws) ai std w h =
    let name = trim_space raw in
    let std' = if str_eq name "" || is_ai_phase name then std else std ++ name ∷ [] in
    let w' = if is_ai_phase name then put name tt w else w in
    elim (Bool-cases (is_ai_phase name)) [
      | inl e ↦ (name, ground (arith, e, h), e)
      | inr e ↦
          let (bad, at, is_ai) = split_names-refused raws ai std' w' (ground (arith, e, h)) in
          (bad, ground (arith, e, at), is_ai)
    ]

-- What a value of `--only` names: for an empty one there are no names.
abbrev pub names_of_only : String → List String
names_of_only only = if str_eq only "" then [] else trimmed (split_on is_comma only)

-- A split says what the specification says: the standard names in their order, without the empty ones,
-- and the set of the assistant's; or a name of the assistant's that is there without `--ai`.
abbrev pub SplitsAs : Bool → List String → Result String (List String × Want) → Type 0
SplitsAs ai names (ok r) = ((has_ai names && not ai) ≡ false) × IsSorted names r
SplitsAs ai names (err name) = ((has_ai names && not ai) ≡ true) × (is_ai_phase name ≡ true)

splits : (raws : List String) (ai : Bool) → SplitsAs ai (trimmed raws) (split_names raws ai [] [])
unfolding is_wanted get
splits raws ai = elim (Bool-cases (has_ai (trimmed raws) && not ai)) [
  | inl e ↦ let (name, at, is_ai) = split_names-refused raws ai [] [] e in rw at (e, is_ai)
  | inr e ↦
      let (r, at, g) = split_names-Grows raws ai [] [] e in
      rw at (e, record { std = g.std_grows; ai = λ k. g.ai_grows k })
]

-- For each value of `--only`, with and without `--ai`, the split refuses a name of the assistant's
-- exactly where one is there without `--ai`; otherwise it gives the standard names, trimmed, in their
-- order and without the empty ones, and the set of the assistant's names that are there.
pub split_only_names-SplitsAs :
    (only : String) (ai : Bool) → SplitsAs ai (names_of_only only) (split_only_names only ai)
unfolding split_only_names is_wanted get
split_only_names-SplitsAs only ai = elim (Bool-cases (str_eq only "")) [
  | inl e ↦ rw e (refl, record { std = refl; ai = λ k. refl })
  | inr e ↦ rw e (splits (split_on is_comma only) ai)
]
