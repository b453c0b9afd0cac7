-- ===== src/Ai/Macros.antt =====
-- internal/ai/verify.go: the macros of Grafana in a query. The loops take as fuel the characters that
-- are left, of which each turn takes away some.
pub mod Filters
pub mod Balance
use vikasa_demo.Base.{
  ℕ, zero, suc, ◌+◌, ◌-◌, ◌==◌, Bool, true, false, ◌&&◌, Char, code, String, List, [], ◌∷◌, Option,
  none, some, if◌then◌else◌, str_append, texts,
}
use vikasa_demo.Verify.Answers.{trim_space}

unfoldable pub strip_prefix : String → String → Option String
strip_prefix String.[] s = some s
strip_prefix (String.◌∷◌ c p) String.[] = none
strip_prefix (String.◌∷◌ c p) (String.◌∷◌ d s) =
    let rest = strip_prefix p s in if code c == code d then rest else none

abbrev pub before_it : Char → Option (String × String) → Option (String × String)
before_it c none = none
before_it c (some (a, b)) = some (String.◌∷◌ c a, b)

-- the two sides of the first occurrence of a text, as of strings.Index
unfoldable pub cut_at : String → String → Option (String × String)
unfolding strip_prefix
cut_at text String.[] = elim (strip_prefix text "") [ some rest ↦ some ("", rest) | none ↦ none ]
cut_at text (String.◌∷◌ c s) =
    let later = before_it c (cut_at text s) in
    elim (strip_prefix text (String.◌∷◌ c s)) [ some rest ↦ some ("", rest) | none ↦ later ]

abbrev pub size : String → ℕ
size String.[] = 0
size (String.◌∷◌ c s) = suc (size s)

abbrev pub time_filter_macro : String
time_filter_macro = "$__timeFilter("

abbrev pub depth_after : Char → ℕ → ℕ
depth_after c depth = if code c == 40 then depth + 1 else if code c == 41 then depth - 1 else depth

-- The scan for the parenthesis that closes, at a depth of at least 1: what is before it and after it.
unfoldable pub close : ℕ → String → Option (String × String)
close depth String.[] = none
close depth (String.◌∷◌ c s) =
    let later = before_it c (close (depth_after c depth) s) in
    if depth_after c depth == 0 then some ("", s) else later

abbrev pub last_six_hours : String
last_six_hours = " > now() - INTERVAL 6 HOUR"

-- a macro that is not closed stays
abbrev pub filtered : String → String → Option (String × String) → (String → String) → String
filtered before rest none again = texts (before ∷ time_filter_macro ∷ rest ∷ [])
filtered before rest (some (arg, after)) again =
    texts (before ∷ trim_space arg ∷ last_six_hours ∷ again after ∷ [])

abbrev pub at_filter : String → Option (String × String) → (String → String) → String
at_filter sql none again = sql
at_filter sql (some (before, rest)) again = filtered before rest (close 1 rest) again

unfoldable pub filter_loop : ℕ → String → String
unfolding close cut_at trim_space
filter_loop zero sql = sql
filter_loop (suc fuel) sql = at_filter sql (cut_at time_filter_macro sql) (filter_loop fuel)

unfoldable pub substitute_time_filter : String → String
unfolding filter_loop
substitute_time_filter sql = filter_loop (size sql) sql

abbrev pub replaced : String → String → Option (String × String) → (String → String) → String
replaced s new none again = s
replaced s new (some (before, after)) again = texts (before ∷ new ∷ again after ∷ [])

-- strings.ReplaceAll of a text that is not empty
unfoldable pub replace_loop : ℕ → String → String → String → String
unfolding cut_at
replace_loop zero old new s = s
replace_loop (suc fuel) old new s = replaced s new (cut_at old s) (replace_loop fuel old new)

unfoldable pub replace_all : String → String → String → String
unfolding replace_loop
replace_all old new s = replace_loop (size s) old new s

unfoldable pub substitute_macros : String → String
unfolding substitute_time_filter replace_all
substitute_macros sql =
    let filtered_sql = substitute_time_filter sql in
    replace_all "$__toTime" "now()"
      (replace_all "$__fromTime" "(now() - INTERVAL 6 HOUR)" filtered_sql)
