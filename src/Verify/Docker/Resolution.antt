-- ===== src/Verify/Docker/Resolution.antt =====
-- The network that internal/verify/docker.go resolves, against a description of it by the networks of
-- the containers in a row.
use vikasa_demo.Base.{
  Bool, String, List, [], ◌∷◌, ◌++◌, Option, none, some, str_eq, if◌then◌else◌, ◌≡◌, refl, sym, ◌∙◌,
  ap, ok, split_on, Bool-cases, inl, inr, ◌⊎◌,
}
use vikasa_demo.Verify.Answers.{trim_space}
use vikasa_demo.Verify.Docker.{
  ComposeContainer, is_network, match_names, match_network, match_siblings, resolved,
  resolve_network, is_comma,
}

-- the first of a list that passes a test
abbrev pub first_of : (String → Bool) → List String → Option String
first_of test [] = none
first_of test (x ∷ xs) = let rest = first_of test xs in if test x then some x else rest

-- the names that are there
abbrev pub present : List String → List String
present [] = []
present (raw ∷ raws) =
    let rest = present raws in
    let name = trim_space raw in if str_eq name "" then rest else name ∷ rest

-- the networks that a container is attached to
abbrev pub attached : ComposeContainer → List String
attached c = present (split_on is_comma c.networks)

-- those of the containers of another name
abbrev pub attached_siblings : List ComposeContainer → String → List String
attached_siblings [] target = []
attached_siblings (c ∷ cs) target =
    let rest = attached_siblings cs target in
    if str_eq c.name target then rest else attached c ++ rest

or_else_first : Option String → Option String → Option String
or_else_first none y = y
or_else_first (some x) y = some x

or_else_first_ap :
    {x x' y y' : Option String} → x ≡ x' → y ≡ y' → or_else_first x y ≡ or_else_first x' y'
or_else_first_ap p q = cc

first_of-append :
    (test : String → Bool) (xs ys : List String)
    → first_of test (xs ++ ys) ≡ or_else_first (first_of test xs) (first_of test ys)
unfolding or_else_first
first_of-append test [] ys = refl
first_of-append test (x ∷ xs) ys = elim (Bool-cases (test x)) [
  | inl e ↦ rw e refl
  | inr e ↦ rw e (first_of-append test xs ys)
]

match_names-present :
    (raws : List String) (key : String)
    → match_names raws key ≡ first_of (is_network key) (present raws)
unfolding match_names
match_names-present [] key = refl
match_names-present (raw ∷ raws) key = elim (Bool-cases (str_eq (trim_space raw) "")) [
  | inl e ↦ rw (e, match_names) (match_names-present raws key)
  | inr e ↦
      rw (e, match_names)
        (ap (λ r. if is_network key (trim_space raw) then some (trim_space raw) else r)
          (match_names-present raws key))
]

Option-cases : (o : Option String) → (o ≡ none) ⊎ ((x : String) × (o ≡ some x))
Option-cases none = inl refl
Option-cases (some x) = inr (x, refl)

siblings_rest :
    (found rest : Option String)
    → (elim found [ none ↦ rest | some name ↦ some name ]) ≡ or_else_first found rest
unfolding or_else_first
siblings_rest none rest = refl
siblings_rest (some x) rest = refl

match_siblings-first :
    (cs : List ComposeContainer) (target key : String)
    → match_siblings cs target key ≡ first_of (is_network key) (attached_siblings cs target)
unfolding match_siblings match_network
match_siblings-first [] target key = refl
match_siblings-first (c ∷ cs) target key = elim (Bool-cases (str_eq c.name target)) [
  | inl e ↦ rw (e, match_siblings) (match_siblings-first cs target key)
  | inr e ↦
      rw (e, match_siblings)
        (siblings_rest (match_network c key) (match_siblings cs target key)
          ∙ or_else_first_ap (match_names-present (split_on is_comma c.networks) key)
              (match_siblings-first cs target key)
          ∙ sym (first_of-append (is_network key) (attached c) (attached_siblings cs target)))
]

resolved_first :
    (key : String) (own others : Option String)
    → (elim own [ some name ↦ ok name | none ↦ resolved key others ])
      ≡ resolved key (or_else_first own others)
unfolding or_else_first
resolved_first key none others = refl
resolved_first key (some x) others = refl

-- The network that is resolved is the first with the key, as its whole name or after an underscore,
-- among those that the target is attached to, and then those of the containers with other names, in
-- the order of the listing; without one the resolution is an error.
pub resolve_network-first :
    (cs : List ComposeContainer) (target : ComposeContainer) (key : String)
    → resolve_network cs target key
      ≡ resolved key
          (first_of (is_network key) (attached target ++ attached_siblings cs target.name))
unfolding resolve_network match_network
resolve_network-first cs target key =
    resolved_first key (match_network target key) (match_siblings cs target.name key)
    ∙ ap (resolved key) (
        or_else_first_ap (match_names-present (split_on is_comma target.networks) key)
          (match_siblings-first cs target.name key)
        ∙ sym
            (first_of-append (is_network key) (attached target) (attached_siblings cs target.name)))
