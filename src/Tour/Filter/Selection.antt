-- ===== src/Tour/Filter/Selection.antt =====
-- What FilterPhases of internal/tour/tour.go selects.
use vikasa_demo.Base.{
  ◌≡◌, refl, ap, ◌∙◌, Bool, true, false, not, ◌&&◌, ◌||◌, String, List, [], ◌∷◌, Option, none, some,
  if◌then◌else◌, str_eq, eq_iff, ok, err, get, put, remove, get-put, get-remove, string_eq,
  is_nonempty, get_of_nonempty, Bool-cases, inl, inr, arith,
}
use vikasa_demo.Verify.Answers.{trim_space}
use vikasa_demo.Tour.Stage.{Stage}
use vikasa_demo.Tour.Phase.{Phase}
use vikasa_demo.Tour.Filter.{
  Want, wanted, is_there, is_wanted, take_wanted, filter_phases, names_of,
}

-- The names ask for a phase: one of them is its name, up to the space around it, and not empty.
abbrev pub asks : List String → String → Bool
asks [] k = false
asks (name ∷ names) k =
    (not (str_eq (trim_space name) "") && str_eq (trim_space name) k) || asks names k

is_there_if :
    (t : Bool) (m : Option (Unit {0}))
    → (is_there (if t then some tt else m) ≡ (t || is_there m))
      × (is_there (if t then none else m) ≡ (not t && is_there m))
is_there_if true m = (refl, refl)
is_there_if false m = (refl, refl)

is_wanted-put :
    (n k : String) (want : Want) → is_wanted k (put n tt want) ≡ (str_eq n k || is_wanted k want)
unfolding is_wanted
is_wanted-put n k want =
    ap is_there (get-put n k tt want) ∙ (is_there_if (str_eq n k) (get k want)).0

is_wanted-remove :
    (n k : String) (want : Want)
    → is_wanted k (remove n want) ≡ (not (str_eq n k) && is_wanted k want)
unfolding is_wanted
is_wanted-remove n k want =
    ap is_there (get-remove n k want) ∙ (is_there_if (str_eq n k) (get k want)).1

is_wanted-wanted :
    (k : String) (names : List String) (want : Want)
    → is_wanted k (wanted names want) ≡ (asks names k || is_wanted k want)
unfolding wanted
is_wanted-wanted k [] want = refl
is_wanted-wanted k (name ∷ names) want = elim (Bool-cases (str_eq (trim_space name) "")) [
  | inl e ↦ rw e (is_wanted-wanted k names want)
  | inr e ↦
      rw
        (
          e,
          is_wanted-wanted k names (put (trim_space name) tt want),
          is_wanted-put (trim_space name) k want,
        )
        (ground arith)
]

module _ (T : Stage) where
  abbrev pub is_name : String → List (Phase T) → Bool
  is_name k [] = false
  is_name k (p ∷ ps) = str_eq p.name k || is_name k ps

  abbrev pub HasDistinctNames : List (Phase T) → Type 0
  HasDistinctNames [] = Unit
  HasDistinctNames (p ∷ ps) = (is_name p.name ps ≡ false) × HasDistinctNames ps

  -- the phases that a test on their names keeps
  abbrev pub select : (String → Bool) → List (Phase T) → List (Phase T)
  select f [] = []
  select f (p ∷ ps) = let rest = select f ps in if f p.name then p ∷ rest else rest

  select_ext :
      (f g : String → Bool) (ps : List (Phase T))
      → ((k : String) → is_name k ps ≡ true → f k ≡ g k)
      → select f ps ≡ select g ps
  select_ext f g [] h = refl
  select_ext f g (p ∷ ps) h =
      rw
        (
          h p.name (ground (arith, eq_iff p.name p.name)),
          select_ext f g ps (λ k e. h k (ground (arith, e))),
        )
        refl

  take_wanted-left :
      (k : String) (ps : List (Phase T)) (want : Want)
      → is_wanted k (take_wanted T ps want).1 ≡ (not (is_name k ps) && is_wanted k want)
  unfolding take_wanted
  take_wanted-left k [] want = refl
  take_wanted-left k (p ∷ ps) want = elim (Bool-cases (is_wanted p.name want)) [
    | inl e ↦
        rw
          (
            e,
            take_wanted,
            take_wanted-left k ps (remove p.name want),
            is_wanted-remove p.name k want,
          )
          (ground arith)
    | inr e ↦ rw (e, take_wanted, take_wanted-left k ps want) (ground (arith, e, eq_iff p.name k))
  ]

  take_wanted-select :
      (ps : List (Phase T)) (want : Want)
      → HasDistinctNames ps
      → (take_wanted T ps want).0 ≡ select (λ n. is_wanted n want) ps
  unfolding take_wanted
  take_wanted-select [] want h = refl
  take_wanted-select (p ∷ ps) want h = elim (Bool-cases (is_wanted p.name want)) [
    | inl e ↦
        rw (e, take_wanted)
          (ap (λ l. p ∷ l)
            (take_wanted-select ps (remove p.name want) h.1
              ∙ select_ext _ _ ps (λ k e.
                is_wanted-remove p.name k want ∙ ground (arith, h.0, e, eq_iff p.name k))))
    | inr e ↦ rw (e, take_wanted) (take_wanted-select ps want h.1)
  ]

  wanted_of_nonempty :
      (want : Want) → is_nonempty want ≡ true → (k : String) × (is_wanted k want ≡ true)
  unfolding is_wanted
  wanted_of_nonempty want h = let (k, v, e) = get_of_nonempty want h in (k, ap is_there e)

  nonempty_of_wanted :
      (k : String) (want : Want) → is_wanted k want ≡ true → is_nonempty want ≡ true
  unfolding is_wanted get
  nonempty_of_wanted k [] h = absurd (cc)
  nonempty_of_wanted k (x ∷ want) h = refl

  or_false : (b : Bool) → (b || false) ≡ b
  or_false true = refl
  or_false false = refl

  asked : (only : List String) (k : String) → is_wanted k (wanted only []) ≡ asks only k
  unfolding is_wanted get
  asked only k = is_wanted-wanted k only [] ∙ or_false (asks only k)

  is_asked :
      (only : List String) (k : String) → asks only k ≡ true → is_nonempty (wanted only []) ≡ true
  is_asked only k h = nonempty_of_wanted k (wanted only []) (asked only k ∙ h)

  none_left :
      (ps : List (Phase T)) (only : List String)
      → ((k : String) → asks only k ≡ true → is_name k ps ≡ true)
      → is_nonempty (take_wanted T ps (wanted only [])).1 ≡ false
  none_left ps only known =
      let want = wanted only [] in
      let left = (take_wanted T ps want).1 in
      elim (Bool-cases (is_nonempty left)) [
        | inr e ↦ e
        | inl e ↦
            let (k, w) = wanted_of_nonempty left e in
            let l = take_wanted-left k ps want in
            let a = asked only k in let n = known k in absurd (ground (arith, w, l, a, n))
      ]

  -- For phases with names of their own, if all the names that are asked for, of which there is one, are
  -- names of phases, the filter returns the phases that are asked for, in the order of the table.
  pub filter_phases-select :
      (ps : List (Phase T)) (only : List String)
      → HasDistinctNames ps
      → ((k : String) → asks only k ≡ true → is_name k ps ≡ true)
      → (k : String) → asks only k ≡ true
      → filter_phases T ps only ≡ ok (select (asks only) ps)
  unfolding filter_phases
  filter_phases-select ps only h known k a =
      let e = take_wanted-select ps (wanted only []) h in
      rw (is_asked only k a, none_left ps only known)
        (ap ok (e ∙ select_ext _ _ ps (λ n m. asked only n)))

  -- Where no name is asked for, the filter returns the whole table.
  pub filter_phases_all :
      (ps : List (Phase T)) (only : List String)
      → ((k : String) → asks only k ≡ false)
      → filter_phases T ps only ≡ ok ps
  unfolding filter_phases
  filter_phases_all ps only nothing =
      let want = wanted only [] in
      elim (Bool-cases (is_nonempty want)) [
        | inl e ↦
            let (k, w) = wanted_of_nonempty want e in
            let a = asked only k in let n = nothing k in absurd (ground (arith, w, a, n))
        | inr e ↦ rw e refl
      ]

  -- A name that is asked for and that no phase has makes the filter return an error.
  pub filter_phases_unknown :
      (ps : List (Phase T)) (only : List String) (k : String)
      → asks only k ≡ true
      → is_name k ps ≡ false
      → (l : List String) × (filter_phases T ps only ≡ err l)
  unfolding filter_phases
  filter_phases_unknown ps only k a unknown =
      let want = wanted only [] in
      let l = take_wanted-left k ps want in
      let b = asked only k in
      let e = nonempty_of_wanted k (take_wanted T ps want).1 (ground (arith, l, b, a, unknown)) in
      (names_of T (take_wanted T ps want).1, rw (is_asked only k a, e) refl)
