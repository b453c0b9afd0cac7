-- ===== src/Events/Paper.antt =====
-- A concrete form of what internal/events takes from elsewhere, for the tests: headers that are a map,
-- a constant digest and times in unary.
use vikasa_demo.Base.{
  ℕ, zero, suc, ◌≡◌, refl, ap, String, some, [], arith, str_eq, if◌then◌else◌, Dict, get, put,
  get-put, string_eq, or_else, eq_iff,
}
use vikasa_demo.Events.Wire.{Wire}

abbrev pub marks : ℕ → String
marks zero = ""
marks (suc n) = String.◌∷◌ "1" (marks n)

abbrev pub count_marks : String → ℕ
count_marks String.[] = 0
count_marks (String.◌∷◌ c s) = suc (count_marks s)

pub count_marks-marks : (n : ℕ) → count_marks (marks n) ≡ n
count_marks-marks zero = refl
count_marks-marks (suc n) = ap suc (count_marks-marks n)

unfoldable pub header_of : String → Dict String String → String
header_of k h = or_else (get k h) ""

pub header_of-put :
    (k j v : String) (h : Dict String String)
    → header_of j (put k v h) ≡ (if str_eq k j then v else header_of j h)
unfolding header_of
header_of-put k j v h = ground (arith, get-put k j v h, eq_iff k j)

abbrev pub paper : Wire
paper = record {
  Message = String;
  Header = Dict String String;
  marshal = λ m. some m;
  sha256_hex = λ s. "e3b0";
  format_time = marks;
  parse_time = λ s. some (count_marks s);
  no_header = [];
  set = put;
  get = header_of;
  parse-format = λ t h. ap some (count_marks-marks t);
  get-set = header_of-put;
  hex_nonempty = λ s. refl;
}
