-- ===== src/Verify/Checks/Dedup.antt =====
-- The proof that there are no duplicates (RunDedup of internal/verify/checks.go), on the numbers of 64
-- bits that Go computes with.
use mathlib.Core.Path.{subst}
use vikasa_demo.Base.{
  ℕ, ◌+◌, ◌-◌, ◌%◌, ◌^◌, ◌<◌, ◌≤◌, ◌≡◌, refl, ap, ◌↔◌, inl, inr, true, String, code, List, [], ◌∷◌,
  Option, none, some, arith, ok, Bool-cases, >>=-eq-ok, ok-injective, ℤ, pos, negsuc, ltb, leb,
  ◌==◌,
}
use vikasa_demo.Verify.Answers.{
  VerifyError, parse_int, in_range, negated, magnitude, or_error, split_tabs, trim_space,
  dedup_of_fields, bad_dedup_count, bad_dedup_distinct, parse_dedup_counts,
}
use vikasa_demo.Verify.Network.{Network, >>=-ok, pure, ch_query}
use vikasa_demo.Verify.Queries.{dedup_counts_query}
use vikasa_demo.Verify.Checks.{
  Deps, DedupResult, run_dedup, minus_int64, is_zero, bits, of_bits, optimize,
}

-- The values of an int64.
abbrev pub IsInt64 : ℤ → Type 0
IsInt64 (pos n) = n < 2 ^ 63
IsInt64 (negsuc n) = n < 2 ^ 63

bits_low : (a : ℤ) → bits a < 2 ^ 64
bits_low (pos n) = omega arith
bits_low (negsuc n) = omega arith

bits_injective : (a b : ℤ) → IsInt64 a → IsInt64 b → bits a ≡ bits b → a ≡ b
bits_injective (pos a) (pos b) ha hb h = ap pos (omega arith)
bits_injective (pos a) (negsuc b) ha hb h = absurd (omega arith)
bits_injective (negsuc a) (pos b) ha hb h = absurd (omega arith)
bits_injective (negsuc a) (negsuc b) ha hb h = ap negsuc (omega arith)

zero_of_bits : (n : ℕ) → is_zero (of_bits n) ≡ true → n < 2 ^ 64 → n ≡ 0
zero_of_bits n h low = elim (Bool-cases (ltb n (2 ^ 63))) [
  | inl e ↦ let g = rw e at h in ground arith
  | inr e ↦ let g = rw e at h in absurd (cc)
]

difference_zero : (x y : ℕ) → x < 2 ^ 64 → y < 2 ^ 64 → (x + (2 ^ 64 - y)) % 2 ^ 64 ≡ 0 → x ≡ y
difference_zero x y hx hy h = omega arith

-- The difference of two int64 is zero exactly for equal ones, although it may wrap around.
pub minus_int64-is_zero :
    (a b : ℤ) → IsInt64 a → IsInt64 b → (is_zero (minus_int64 a b) ≡ true) ↔ (a ≡ b)
unfolding minus_int64
minus_int64-is_zero a b ha hb = (
  λ h.
      let z = zero_of_bits ((bits a + (2 ^ 64 - bits b)) % 2 ^ 64) h (omega arith) in
      bits_injective a b ha hb (difference_zero (bits a) (bits b) (bits_low a) (bits_low b) z),
  λ e.
      let f = ap bits e in
      let z : (bits a + (2 ^ 64 - bits b)) % 2 ^ 64 ≡ 0 = omega (arith, bits_low a) in rw z refl,
)

in_range-some :
    (m most : ℕ) (f : ℕ → ℤ) (n : ℤ) → in_range (some m) most f ≡ some n → (m ≤ most) × (f m ≡ n)
in_range-some m most f n h = elim (Bool-cases (leb m most)) [
  | inl e ↦ let g = rw e at h in (ground arith, cc)
  | inr e ↦ let g = rw e at h in absurd (cc)
]

negated-IsInt64 : (m : ℕ) → m ≤ 2 ^ 63 → IsInt64 (negated m)
negated-IsInt64 m h = elim (Bool-cases (m == 0)) [
  | inl e ↦ rw e (omega arith)
  | inr e ↦ rw e (ground arith)
]

in_range-IsInt64 :
    (m : Option ℕ) (n : ℤ)
    → (in_range m 9223372036854775807 pos ≡ some n → IsInt64 n)
      × (in_range m 9223372036854775808 negated ≡ some n → IsInt64 n)
in_range-IsInt64 none n = (λ h. absurd (cc), λ h. absurd (cc))
in_range-IsInt64 (some m) n = (
  λ h. let (le, e) = in_range-some m 9223372036854775807 pos n h in subst IsInt64 e (omega arith),
  λ h.
      let (le, e) = in_range-some m 9223372036854775808 negated n h in
      subst IsInt64 e (negated-IsInt64 m le),
)

parse_int-IsInt64 : (s : String) (n : ℤ) → parse_int s ≡ some n → IsInt64 n
unfolding parse_int
parse_int-IsInt64 String.[] n h = absurd (cc)
parse_int-IsInt64 (String.◌∷◌ c s) n h = elim (Bool-cases (code c == 45)) [
  | inl e ↦ (in_range-IsInt64 (magnitude s) n).1 (rw e at h)
  | inr e ↦ elim (Bool-cases (code c == 43)) [
    | inl f ↦ (in_range-IsInt64 (magnitude s) n).0 (rw (e, f) at h)
    | inr f ↦ (in_range-IsInt64 (magnitude (String.◌∷◌ c s)) n).0 (rw (e, f) at h)
  ]
]

or_error_ok : (e : VerifyError) (m : Option ℤ) (n : ℤ) → or_error e m ≡ ok n → m ≡ some n
or_error_ok e none n h = absurd (cc)
or_error_ok e (some m) n h = cc

dedup_of_fields-IsInt64 :
    (s : String) (fields : List String) (count distinct : ℤ)
    → dedup_of_fields s fields ≡ ok (count, distinct)
    → IsInt64 count × IsInt64 distinct
unfolding dedup_of_fields
dedup_of_fields-IsInt64 s [] count distinct h = absurd (cc)
dedup_of_fields-IsInt64 s (a ∷ []) count distinct h = absurd (cc)
dedup_of_fields-IsInt64 s (a ∷ b ∷ c ∷ rest) count distinct h = absurd (cc)
dedup_of_fields-IsInt64 s (a ∷ b ∷ []) count distinct h =
    let (x, p, h1) = >>=-eq-ok (or_error (bad_dedup_count a) (parse_int a)) _ h in
    let (y, q, h2) = >>=-eq-ok (or_error (bad_dedup_distinct b) (parse_int b)) _ h1 in
    let e = ok-injective h2 in
    (
      subst IsInt64 (ap (λ z. z.0) e) (parse_int-IsInt64 a x (or_error_ok _ _ x p)),
      subst IsInt64 (ap (λ z. z.1) e) (parse_int-IsInt64 b y (or_error_ok _ _ y q)),
    )

parse_dedup_counts-IsInt64 :
    (s : String) (c : ℤ × ℤ) → parse_dedup_counts s ≡ ok c → IsInt64 c.0 × IsInt64 c.1
unfolding parse_dedup_counts
parse_dedup_counts-IsInt64 s c h = dedup_of_fields-IsInt64 s (split_tabs (trim_space s)) c.0 c.1 h

module _ (N : Network) where
  -- A run that reports counts reports the difference zero exactly where the count of the rows is that
  -- of the distinct identifiers.
  pub run_dedup_exact :
      (deps : Deps) (s s' : N.State) (d : DedupResult)
      → run_dedup N deps s ≡ (s', ok d)
      → (is_zero d.diff ≡ true) ↔ (d.count ≡ d.distinct)
  unfolding run_dedup
  run_dedup_exact deps s s' d h =
      let (o, _, h1) = >>=-ok (optimize N deps) _ s s' d h in
      let (out, _, h2) = >>=-ok (ch_query N deps.ch (dedup_counts_query deps.db)) _ _ s' d h1 in
      let (c, p, h3) = >>=-ok (pure (parse_dedup_counts out)) _ _ s' d h2 in
      let (hc, hd) = parse_dedup_counts-IsInt64 out c p in
      let e = ok-injective (ap (λ y. y.1) h3) in
      subst (λ (x : DedupResult). (is_zero x.diff ≡ true) ↔ (x.count ≡ x.distinct)) e
        (minus_int64-is_zero c.0 c.1 hc hd)
