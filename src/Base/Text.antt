-- ===== src/Base/Text.antt =====
-- Go's strings.Split and strings.Join at the separator ".".
use Prim.Native.Char.{Char, code}
use Prim.Native.String.{String, ◌++◌ as str_append}
use mathlib.Core.Path.{◌≡◌, refl, ap, ◌∙◌}
use mathlib.Core.Bool.{Bool, false}
use mathlib.Core.List.{List, [], ◌∷◌}
use text.Mathlib.TextLemmas.{nil-append, cons-append}
use vikasa_demo.Base.Tests.{◌==◌, if◌then◌else◌}
use vikasa_demo.Base.Lists.{All}

abbrev pub is_dot : Char → Bool
is_dot c = code c == b'.'

-- a character in front of the first part
abbrev grow : Char → List String → List String
grow c [] = (String.◌∷◌ c "") ∷ []
grow c (p ∷ ps) = (String.◌∷◌ c p) ∷ ps

unfoldable pub split : String → List String
split String.[] = "" ∷ []
split (String.◌∷◌ c s) = let rest = split s in if is_dot c then "" ∷ rest else grow c rest

-- strings.Split at a separator of one character
unfoldable pub split_on : (Char → Bool) → String → List String
split_on sep String.[] = "" ∷ []
split_on sep (String.◌∷◌ c s) =
    let rest = split_on sep s in if sep c then "" ∷ rest else grow c rest

unfoldable pub join : List String → String
join [] = ""
join (p ∷ []) = p
join (p ∷ q ∷ ps) = str_append p (str_append "." (join (q ∷ ps)))

-- texts in a row
abbrev pub texts : List String → String
texts [] = ""
texts (s ∷ ss) = str_append s (texts ss)

abbrev pub IsDotless : String → Type 0
IsDotless String.[] = Unit
IsDotless (String.◌∷◌ c s) = (is_dot c ≡ false) × IsDotless s

split-dot : (s : String) → split (str_append "." s) ≡ "" ∷ split s
unfolding split
split-dot s = rw (cons-append, nil-append)

split-append : (p s : String) → IsDotless p → split (str_append p (str_append "." s)) ≡ p ∷ split s
unfolding split
split-append String.[] s h = rw nil-append (split-dot s)
split-append (String.◌∷◌ c p) s h = rw (cons-append, h.0, split-append p s h.1)

split-dotless : (p : String) → IsDotless p → split p ≡ p ∷ []
unfolding split
split-dotless String.[] h = refl
split-dotless (String.◌∷◌ c p) h = rw (h.0, split-dotless p h.1)

-- Splitting undoes joining, for parts without a dot.
pub split-join :
    (p : String) (ps : List String) → All IsDotless (p ∷ ps) → split (join (p ∷ ps)) ≡ p ∷ ps
unfolding join
split-join p [] h = split-dotless p h.0
split-join p (q ∷ ps) h = split-append p (join (q ∷ ps)) h.0 ∙ ap (λ x. p ∷ x) (split-join q ps h.1)
