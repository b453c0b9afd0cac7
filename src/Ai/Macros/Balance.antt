-- ===== src/Ai/Macros/Balance.antt =====
-- A macro of internal/ai/verify.go whose argument has parentheses that match.
use text.Mathlib.TextLemmas.{nil-append, cons-append, append-nil, append_assoc}
use vikasa_demo.Base.{
  ℕ, suc, ◌==◌, true, false, Char, code, String, [], ◌∷◌, Option, none, some, str_append, texts,
  ◌≡◌, refl, ap, sym, ◌∙◌, arith, Bool-cases, Option-cases, inl, inr,
}
use vikasa_demo.Verify.Answers.{trim_space}
use vikasa_demo.Ai.Macros.{
  strip_prefix, before_it, cut_at, time_filter_macro, depth_after, close, last_six_hours,
  substitute_time_filter,
}
use vikasa_demo.Ai.Macros.Filters.{filter_turn}

-- a text whose parentheses match
pub data IsBalanced : String → Type 0 where
  empty : IsBalanced ""
  plain :
      (c : Char) (s : String)
      → (code c == 40) ≡ false
      → (code c == 41) ≡ false
      → IsBalanced s
      → IsBalanced (String.◌∷◌ c s)
  nested :
      (a b : String)
      → IsBalanced a
      → IsBalanced b
      → IsBalanced (String.◌∷◌ "(" (str_append a (String.◌∷◌ ")" b)))

-- a text in front of the first of two
abbrev ahead : String → Option (String × String) → Option (String × String)
ahead a none = none
ahead a (some (x, y)) = some (str_append a x, y)

ahead-empty : (o : Option (String × String)) → ahead "" o ≡ o
ahead-empty none = refl
ahead-empty (some (x, y)) = rw nil-append

ahead-cons :
    (c : Char) (s : String) (o : Option (String × String))
    → before_it c (ahead s o) ≡ ahead (String.◌∷◌ c s) o
ahead-cons c s none = refl
ahead-cons c s (some (x, y)) = ap (λ z. some (z, y)) (sym (cons-append c s x))

ahead-nested :
    (a b : String) (o : Option (String × String))
    → before_it "(" (ahead a (before_it ")" (ahead b o)))
      ≡ ahead (String.◌∷◌ "(" (str_append a (String.◌∷◌ ")" b))) o
ahead-nested a b none = refl
ahead-nested a b (some (x, y)) =
    ap (λ z. some (z, y))
      (sym (
        cons-append "(" (str_append a (String.◌∷◌ ")" b)) x
        ∙ ap (λ z. String.◌∷◌ "(" z)
            (append_assoc a (String.◌∷◌ ")" b) x ∙ ap (str_append a) (cons-append ")" b x))))

close-cons :
    (c : Char) (s : String) (depth next : ℕ)
    → depth_after c depth ≡ suc next
    → close depth (String.◌∷◌ c s) ≡ before_it c (close (suc next) s)
unfolding close
close-cons c s depth next h =
    let e : (depth_after c depth == 0) ≡ false = rw h (ground arith) in rw (e, close, h) refl

-- The scan passes a balanced text at any depth.
close-balanced :
    {a : String}
    → IsBalanced a
    → (depth : ℕ) (s : String) → close (suc depth) (str_append a s) ≡ ahead a (close (suc depth) s)
close-balanced empty depth s =
    ap (close (suc depth)) (nil-append s) ∙ sym (ahead-empty (close (suc depth) s))
close-balanced (plain c t p q h) depth s =
    ap (close (suc depth)) (cons-append c t s)
    ∙ close-cons c (str_append t s) (suc depth) depth (rw (p, q) refl)
    ∙ ap (before_it c) (close-balanced h depth s)
    ∙ ahead-cons c t (close (suc depth) s)
close-balanced (nested a b ha hb) depth s =
    let closing = String.◌∷◌ ")" (str_append b s) in
    ap (close (suc depth)) (
      cons-append "(" (str_append a (String.◌∷◌ ")" b)) s
      ∙ ap (λ z. String.◌∷◌ "(" z)
          (append_assoc a (String.◌∷◌ ")" b) s ∙ ap (str_append a) (cons-append ")" b s)))
    ∙ close-cons "(" (str_append a closing) (suc depth) (suc depth) (omega arith)
    ∙ ap (before_it "(") (
        close-balanced ha (suc depth) closing
        ∙ ap (ahead a) (
            close-cons ")" (str_append b s) (suc (suc depth)) depth (omega arith)
            ∙ ap (before_it ")") (close-balanced hb depth s)))
    ∙ ahead-nested a b (close (suc depth) s)

-- a text without a dollar sign
abbrev IsDollarless : String → Type 0
IsDollarless String.[] = Unit {0}
IsDollarless (String.◌∷◌ c s) = ((code c == 36) ≡ false) × IsDollarless s

strip_prefix-append : (p s : String) → strip_prefix p (str_append p s) ≡ some s
unfolding strip_prefix
strip_prefix-append String.[] s = ap some (nil-append s)
strip_prefix-append (String.◌∷◌ c p) s =
    let e : (code c == code c) ≡ true = ground arith in
    ap (strip_prefix (String.◌∷◌ c p)) (cons-append c p s) ∙ rw e (strip_prefix-append p s)

-- A text that is no prefix does not become one where a dollar sign follows, which it has only first.
strip_prefix-dollar :
    (p t s : String)
    → IsDollarless p
    → strip_prefix p t ≡ none
    → strip_prefix p (str_append t (String.◌∷◌ "$" s)) ≡ none
unfolding strip_prefix
strip_prefix-dollar String.[] t s h e = absurd (cc)
strip_prefix-dollar (String.◌∷◌ c p) String.[] s (d, h) e = rw (nil-append, strip_prefix, d) refl
strip_prefix-dollar (String.◌∷◌ c p) (String.◌∷◌ x t) s (d, h) e =
    elim (Bool-cases (code c == code x)) [
      | inl f ↦
          rw (cons-append, strip_prefix, f)
            (strip_prefix-dollar p t s h (rw (f, strip_prefix) at e))
      | inr f ↦ rw (cons-append, strip_prefix, f) refl
    ]

macro-dollar :
    (c : Char) (t s : String)
    → strip_prefix time_filter_macro (String.◌∷◌ c t) ≡ none
    → strip_prefix time_filter_macro (String.◌∷◌ c (str_append t (String.◌∷◌ "$" s))) ≡ none
unfolding strip_prefix
macro-dollar c t s e = elim (Bool-cases (36 == code c)) [
  | inl f ↦
      rw (f, strip_prefix)
        (strip_prefix-dollar "__timeFilter(" t s
          (
            refl,
            (
              refl,
              (
                refl,
                (refl, (refl, (refl, (refl, (refl, (refl, (refl, (refl, (refl, (refl, tt)))))))))),
              ),
            ),
          )
          (rw (f, strip_prefix) at e))
  | inr f ↦ rw (f, strip_prefix) refl
]

before_it-none : (c : Char) (o : Option (String × String)) → before_it c o ≡ none → o ≡ none
before_it-none c none h = refl
before_it-none c (some (a, b)) h = absurd (cc)

cut_at-first :
    (before s : String)
    → cut_at time_filter_macro before ≡ none
    → cut_at time_filter_macro (str_append before (str_append time_filter_macro s))
      ≡ some (before, s)
unfolding cut_at strip_prefix
cut_at-first String.[] s h =
    let cons = cons-append "$" "__timeFilter(" s in
    let e : strip_prefix time_filter_macro (String.◌∷◌ "$" (str_append "__timeFilter(" s))
        ≡ some s =
      ap (strip_prefix time_filter_macro) (sym cons) ∙ strip_prefix-append time_filter_macro s in
    ap (cut_at time_filter_macro) (nil-append (str_append time_filter_macro s) ∙ cons)
    ∙ rw (e, cut_at) refl
cut_at-first (String.◌∷◌ c before) s h =
    elim (Option-cases (strip_prefix time_filter_macro (String.◌∷◌ c before))) [
      | inl e ↦
          let k = before_it-none c (cut_at time_filter_macro before) (rw (e, cut_at) at h) in
          let cons = cons-append "$" "__timeFilter(" s in
          let next = str_append time_filter_macro s in
          let f : strip_prefix time_filter_macro (String.◌∷◌ c (str_append before next)) ≡ none =
            ap (λ x. strip_prefix time_filter_macro (String.◌∷◌ c (str_append before x))) cons
            ∙ macro-dollar c before (str_append "__timeFilter(" s) e in
          ap (cut_at time_filter_macro) (cons-append c before next)
          ∙ rw (f, cut_at) (ap (before_it c) (cut_at-first before s k))
      | inr (r, e) ↦ let k = rw (e, cut_at) at h in absurd (cc)
    ]

close-argument :
    (arg after : String)
    → IsBalanced arg
    → close 1 (str_append arg (String.◌∷◌ ")" after)) ≡ some (arg, after)
unfolding close
close-argument arg after h =
    close-balanced h 0 (String.◌∷◌ ")" after) ∙ ap (λ z. some (z, after)) (append-nil arg)

-- In a query, the macro $__timeFilter after a text in which it does not occur, and around an argument
-- whose parentheses match, becomes the comparison of its trimmed argument with six hours ago; then
-- the rest of the query is treated in the same way.
pub substitute_time_filter-balanced :
    (before arg after : String)
    → cut_at time_filter_macro before ≡ none
    → IsBalanced arg
    → substitute_time_filter
        (str_append before (str_append time_filter_macro (str_append arg (String.◌∷◌ ")" after))))
      ≡ texts (before ∷ trim_space arg ∷ last_six_hours ∷ substitute_time_filter after ∷ [])
substitute_time_filter-balanced before arg after h k =
    let rest = str_append arg (String.◌∷◌ ")" after) in
    filter_turn (str_append before (str_append time_filter_macro rest))
    ∙ rw (cut_at-first before rest h, close-argument arg after k) refl
