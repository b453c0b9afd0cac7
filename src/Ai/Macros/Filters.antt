-- ===== src/Ai/Macros/Filters.antt =====
-- The macro $__timeFilter of internal/ai/verify.go: what a query becomes, and that the fuel of the loop
-- is enough.
use vikasa_demo.Base.{
  ℕ, zero, suc, ◌+◌, ◌≤◌, ◌<◌, ◌==◌, Char, code, String, Option, none, some, ◌≡◌, ◌⊎◌, refl, ap,
  sym, ◌∙◌, arith, Bool-cases, inl, inr,
}
use vikasa_demo.Ai.Macros.{
  strip_prefix, before_it, cut_at, size, time_filter_macro, depth_after, close, at_filter,
  filter_loop, substitute_time_filter,
}

cut-cases :
    (o : Option (String × String)) → (o ≡ none) ⊎ ((a : String) × (b : String) × (o ≡ some (a, b)))
cut-cases none = inl refl
cut-cases (some (a, b)) = inr (a, b, refl)

-- what the some of a pair has
sides : {A : Type 0} → A → (String × String → A) → Option (String × String) → A
sides x f none = x
sides x f (some p) = f p

some-pair :
    {a b c d : String}
    → ◌≡◌ {A = Option (String × String)} (some (a, b)) (some (c, d))
    → (a ≡ c) × (b ≡ d)
unfolding sides
some-pair {a = a} h = (ap (sides a (λ p. p.0)) h, ap (sides a (λ p. p.1)) h)

some-text : {x y : String} → some x ≡ some y → x ≡ y
some-text e = cc

prefix-cases : (o : Option String) → (o ≡ none) ⊎ ((a : String) × (o ≡ some a))
prefix-cases none = inl refl
prefix-cases (some a) = inr (a, refl)

strip_prefix-size : (p s r : String) → strip_prefix p s ≡ some r → size s ≡ size p + size r
unfolding strip_prefix
strip_prefix-size String.[] s r h = let q = ap size (some-text h) in omega (arith, q)
strip_prefix-size (String.◌∷◌ c p) String.[] r h = absurd (cc)
strip_prefix-size (String.◌∷◌ c p) (String.◌∷◌ d s) r h = elim (Bool-cases (code c == code d)) [
  | inl e ↦ let ih = strip_prefix-size p s r (rw e at h) in omega (arith, ih)
  | inr e ↦ let g = rw e at h in absurd (cc)
]

before_it-some :
    (c : Char) (o : Option (String × String)) (a b : String)
    → before_it c o ≡ some (a, b)
    → (a' : String) × (o ≡ some (a', b)) × (a ≡ String.◌∷◌ c a')
before_it-some c none a b h = absurd (cc)
before_it-some c (some (x, y)) a b h = let (p, q) = some-pair h in (x, rw q refl, sym p)

close-size : (depth : ℕ) (s a b : String) → close depth s ≡ some (a, b) → size b < size s
unfolding close
close-size depth String.[] a b h = absurd (cc)
close-size depth (String.◌∷◌ c s) a b h = elim (Bool-cases (depth_after c depth == 0)) [
  | inl e ↦ let q = ap size (some-pair (rw (e, close) at h)).1 in omega (arith, q)
  | inr e ↦
      let (a', k, _) = before_it-some c (close (depth_after c depth) s) a b (rw (e, close) at h) in
      let ih = close-size (depth_after c depth) s a' b k in omega (arith, ih)
]

cut_at-size : (t s a b : String) → cut_at t s ≡ some (a, b) → size s ≡ size a + size t + size b
unfolding cut_at
cut_at-size t String.[] a b h = elim (prefix-cases (strip_prefix t "")) [
  | inl e ↦ let g = rw (e, cut_at) at h in absurd (cc)
  | inr (r, e) ↦
      let (p, q) = some-pair (rw (e, cut_at) at h) in
      let n = ap size p in
      let m = ap size q in let k = strip_prefix-size t "" r e in omega (arith, n, m, k)
]
cut_at-size t (String.◌∷◌ c s) a b h = elim (prefix-cases (strip_prefix t (String.◌∷◌ c s))) [
  | inl e ↦
      let (a', k, p) = before_it-some c (cut_at t s) a b (rw (e, cut_at) at h) in
      let n = ap size p in let ih = cut_at-size t s a' b k in omega (arith, n, ih)
  | inr (r, e) ↦
      let (p, q) = some-pair (rw (e, cut_at) at h) in
      let n = ap size p in
      let m = ap size q in
      let k = strip_prefix-size t (String.◌∷◌ c s) r e in omega (arith, n, m, k)
]

-- One turn of the loop, with any way to go on after it.
abbrev pub turn : String → (String → String) → String
turn sql again = at_filter sql (cut_at time_filter_macro sql) again

-- Two ways to go on that agree on the shorter queries give the same.
turn-ap :
    (sql : String) (f g : String → String)
    → ((s : String) → size s < size sql → f s ≡ g s)
    → turn sql f ≡ turn sql g
turn-ap sql f g h = elim (cut-cases (cut_at time_filter_macro sql)) [
  | inl e ↦ rw e refl
  | inr (before, rest, e) ↦ elim (cut-cases (close 1 rest)) [
    | inl k ↦ rw (e, k) refl
    | inr (arg, after, k) ↦
        let n = cut_at-size time_filter_macro sql before rest e in
        let m = close-size 1 rest arg after k in rw (e, k, h after (omega (arith, n, m)))
  ]
]

filter_loop-fuel :
    (f g : ℕ) (sql : String) → size sql ≤ f → size sql ≤ g → filter_loop f sql ≡ filter_loop g sql
unfolding filter_loop
filter_loop-fuel zero zero sql h k = refl
filter_loop-fuel zero (suc g) String.[] h k = refl
filter_loop-fuel zero (suc g) (String.◌∷◌ c s) h k = absurd (omega (arith, h))
filter_loop-fuel (suc f) zero String.[] h k = refl
filter_loop-fuel (suc f) zero (String.◌∷◌ c s) h k = absurd (omega (arith, k))
filter_loop-fuel (suc f) (suc g) sql h k =
    turn-ap sql (filter_loop f) (filter_loop g)
      (λ s less. filter_loop-fuel f g s (omega (arith, h, less)) (omega (arith, k, less)))

-- The loop is its own unrolling: the fuel never runs out.
pub filter_turn : (sql : String) → substitute_time_filter sql ≡ turn sql substitute_time_filter
unfolding substitute_time_filter
filter_turn sql =
    filter_loop-fuel (size sql) (suc (size sql)) sql (omega arith) (omega arith)
    ∙ turn-ap sql (filter_loop (size sql)) substitute_time_filter
        (λ s less. filter_loop-fuel (size sql) (size s) s (omega (arith, less)) (omega arith))
