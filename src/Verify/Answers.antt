-- ===== src/Verify/Answers.antt =====
-- The text of ClickHouse's answers, as internal/verify/checks.go reads it, with what it uses of Go's
-- strings and strconv.
use Prim.Native.Nat.{◌*◌}
use vikasa_demo.Base.{
  ℕ, ◌+◌, ◌-◌, Bool, ◌&&◌, ◌||◌, Char, code, String, List, [], ◌∷◌, Option, none, some,
  if◌then◌else◌, leb, ◌==◌, ℤ, pos, negsuc, Result, ok, err, ◌>>=◌,
}

-- unicode.IsSpace
unfoldable pub is_space : Char → Bool
is_space c =
    let n = code c in
    (leb 9 n && leb n 13)
    || (n == 32)
    || (n == 0x85)
    || (n == 0xa0)
    || (n == 0x1680)
    || (leb 0x2000 n && leb n 0x200a)
    || (n == 0x2028)
    || (n == 0x2029)
    || (n == 0x202f)
    || (n == 0x205f)
    || (n == 0x3000)

abbrev pub trim_left : (Char → Bool) → String → String
trim_left f String.[] = ""
trim_left f (String.◌∷◌ c s) = let rest = trim_left f s in if f c then rest else String.◌∷◌ c s

abbrev pub keep_left : (Char → Bool) → Char → String → String
keep_left f c String.[] = if f c then "" else String.◌∷◌ c ""
keep_left f c (String.◌∷◌ d s) = String.◌∷◌ c (String.◌∷◌ d s)

abbrev pub trim_right : (Char → Bool) → String → String
trim_right f String.[] = ""
trim_right f (String.◌∷◌ c s) = keep_left f c (trim_right f s)

unfoldable pub trim_space : String → String
trim_space s = trim_right is_space (trim_left is_space s)

abbrev pub grow_field : Char → List String → List String
grow_field c [] = (String.◌∷◌ c "") ∷ []
grow_field c (p ∷ ps) = (String.◌∷◌ c p) ∷ ps

-- strings.Split at a tab
unfoldable pub split_tabs : String → List String
split_tabs String.[] = "" ∷ []
split_tabs (String.◌∷◌ c s) =
    let rest = split_tabs s in if code c == 9 then "" ∷ rest else grow_field c rest

abbrev pub is_digit : Char → Bool
is_digit c = leb 48 (code c) && leb (code c) 57

abbrev pub digits_value : ℕ → String → Option ℕ
digits_value n String.[] = some n
digits_value n (String.◌∷◌ c s) =
    let rest = digits_value (n * 10 + (code c - 48)) s in if is_digit c then rest else none

-- digits that are there
abbrev pub magnitude : String → Option ℕ
magnitude String.[] = none
magnitude (String.◌∷◌ c s) = digits_value 0 (String.◌∷◌ c s)

abbrev pub negated : ℕ → ℤ
negated n = if n == 0 then pos 0 else negsuc (n - 1)

abbrev pub in_range : Option ℕ → ℕ → (ℕ → ℤ) → Option ℤ
in_range none most f = none
in_range (some n) most f = if leb n most then some (f n) else none

-- strconv.ParseInt of base 10 and 64 bits
unfoldable pub parse_int : String → Option ℤ
parse_int String.[] = none
parse_int (String.◌∷◌ c s) =
    if code c == 45
    then in_range (magnitude s) 9223372036854775808 negated
    else if code c == 43
    then in_range (magnitude s) 9223372036854775807 pos
    else in_range (magnitude (String.◌∷◌ c s)) 9223372036854775807 pos

-- Every error of the package, by where it is made.
pub data VerifyError : Type 0 where
  bad_request no_response no_body : VerifyError
  bad_status : ℕ → String → VerifyError
  bad_count bad_fields bad_dedup_count bad_dedup_distinct : String → VerifyError
  bad_optimize : VerifyError → VerifyError

abbrev pub or_error : VerifyError → Option ℤ → Result VerifyError ℤ
or_error e none = err e
or_error e (some n) = ok n

unfoldable pub parse_count : String → Result VerifyError ℤ
unfolding trim_space parse_int
parse_count s = or_error (bad_count s) (parse_int (trim_space s))

unfoldable pub dedup_of_fields : String → List String → Result VerifyError (ℤ × ℤ)
unfolding parse_int
dedup_of_fields s [] = err (bad_fields s)
dedup_of_fields s (a ∷ []) = err (bad_fields s)
dedup_of_fields s (a ∷ b ∷ []) = do
  count ← or_error (bad_dedup_count a) (parse_int a)
  distinct ← or_error (bad_dedup_distinct b) (parse_int b)
  ok (count, distinct)
dedup_of_fields s (a ∷ b ∷ c ∷ rest) = err (bad_fields s)

unfoldable pub parse_dedup_counts : String → Result VerifyError (ℤ × ℤ)
unfolding dedup_of_fields split_tabs trim_space
parse_dedup_counts s = dedup_of_fields s (split_tabs (trim_space s))
