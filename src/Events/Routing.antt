-- ===== src/Events/Routing.antt =====
-- What internal/events/subject.go writes and reads agree.
use text.Mathlib.TextLemmas.{append_assoc}
use mathlib.Core.List.{Memᴰ}
use vikasa_demo.Base.{
  ◌≡◌, refl, ap, ◌∙◌, true, false, List, [], ◌∷◌, String, Char, arith, All, Result, ok, err, ◌>>◌,
  IsDotless, is_dot, split, join, split-join, str_append, Bool-cases, inl, inr,
}
use vikasa_demo.Events.Subject.{
  EventError, invalid_token, not_internal, is_alphanumeric, is_token_rest, is_token, check_tokens,
  subject, parse_subject, parse_share_subject,
}

char-dotless : (c : Char) → is_alphanumeric c ≡ true → is_dot c ≡ false
char-dotless c h = ground arith

IsDotless-rest : (s : String) → is_token_rest s ≡ true → IsDotless s
IsDotless-rest String.[] h = tt
IsDotless-rest (String.◌∷◌ c s) h = (ground arith, IsDotless-rest s (ground arith))

pub IsDotless-token : (s : String) → is_token s ≡ true → IsDotless s
unfolding is_token
IsDotless-token String.[] h = tt
IsDotless-token (String.◌∷◌ c s) h = (ground arith, IsDotless-rest s (ground arith))

abbrev pub AreTokens : List String → Type 0
AreTokens = All (λ t. is_token t ≡ true)

check_tokens-ok : (ts : List String) → check_tokens ts ≡ ok tt → AreTokens ts
unfolding check_tokens
check_tokens-ok [] h = tt
check_tokens-ok (t ∷ ts) h = elim (Bool-cases (is_token t)) [
  | inl e ↦ (e, check_tokens-ok ts (rw e at h))
  | inr e ↦ absurd (cc (rw e at h))
]

AreTokens-IsDotless : (ts : List String) → AreTokens ts → All IsDotless ts
AreTokens-IsDotless [] h = tt
AreTokens-IsDotless (t ∷ ts) h = (IsDotless-token t h.0, AreTokens-IsDotless ts h.1)

-- The prefix of the written subject is a part of its own.
joined :
    (p : String) (ps : List String)
    → str_append "vikasa." (join (p ∷ ps)) ≡ join ("vikasa" ∷ p ∷ ps)
unfolding join
joined p ps = append_assoc "vikasa" "." (join (p ∷ ps))

split-subject :
    (p : String) (ps : List String)
    → AreTokens (p ∷ ps)
    → split (str_append "vikasa." (join (p ∷ ps))) ≡ "vikasa" ∷ p ∷ ps
split-subject p ps h =
    ap split (joined p ps)
    ∙ split-join "vikasa" (p ∷ ps)
        ((refl, (refl, (refl, (refl, (refl, (refl, tt)))))), AreTokens-IsDotless (p ∷ ps) h)

then-ok :
    (m : Result EventError (Unit {0})) (x s : String) → (m >> ok x) ≡ ok s → (m ≡ ok tt) × (s ≡ x)
then-ok (ok tt) x s h = (refl, cc)
then-ok (err e) x s h = absurd (cc)

then-err :
    (m : Result EventError (Unit {0})) (x : String) (e : EventError)
    → (m >> ok x) ≡ err e
    → m ≡ err e
then-err (ok tt) x e h = absurd (cc)
then-err (err e') x e h = cc

check_tokens-err :
    (ts : List String) (t : String)
    → check_tokens ts ≡ err (invalid_token t)
    → (is_token t ≡ false) × Memᴰ t ts
unfolding check_tokens
check_tokens-err [] t h = absurd (cc)
check_tokens-err (u ∷ ts) t h = elim (Bool-cases (is_token u)) [
  | inl e ↦ let (bad, at) = check_tokens-err ts t (rw e at h) in (bad, Memᴰ.tail at)
  | inr e ↦ let p : u ≡ t = cc (rw e at h) in (rw (← p) e, rw p (Memᴰ.head refl))
]

module _ (dot district cabinet service controller event : String) where
  abbrev pub tokens : List String
  tokens = dot ∷ district ∷ cabinet ∷ service ∷ controller ∷ event ∷ []

  pub subject-eq-ok :
      (s : String)
      → subject dot district cabinet service controller event ≡ ok s
      → AreTokens tokens × (s ≡ str_append "vikasa." (join tokens))
  unfolding subject
  subject-eq-ok s h =
      let (valid, e) = then-ok (check_tokens tokens) _ s h in (check_tokens-ok tokens valid, e)

  -- A subject that was written for the six tokens is read back as these six, and no part of it is
  -- taken for another.
  pub parse_subject-subject :
      (s : String)
      → subject dot district cabinet service controller event ≡ ok s
      → parse_subject s
        ≡ ok (record {
          dot = dot;
          district = district;
          cabinet = cabinet;
          service = service;
          controller = controller;
          event = event;
        })
  unfolding parse_subject
  parse_subject-subject s h =
      let (valid, e) = subject-eq-ok s h in rw (e, split-subject dot _ valid)

  -- The first token that does not match, if there is one, is the error, and then nothing is written.
  pub subject_error :
      (t : String)
      → subject dot district cabinet service controller event ≡ err (invalid_token t)
      → (is_token t ≡ false) × Memᴰ t tokens
  unfolding subject
  subject_error t h = check_tokens-err tokens t (then-err (check_tokens tokens) _ _ h)

module _ (dot corridor cabinet service controller event : String) where
  abbrev pub share_tokens : List String
  share_tokens = dot ∷ "share" ∷ corridor ∷ cabinet ∷ service ∷ controller ∷ event ∷ []

  -- A subject of the federation, `vikasa.<dot>.share.<corridor>...` with valid tokens, is no internal
  -- subject, and is read as its tokens with the district `share-<corridor>`.
  pub parse_share_subject-tokens :
      AreTokens share_tokens
      → let s = str_append "vikasa." (join share_tokens) in
        (parse_subject s ≡ err (not_internal s))
        × (parse_share_subject s
            ≡ ok (record {
              dot = dot;
              district = str_append "share-" corridor;
              cabinet = cabinet;
              service = service;
              controller = controller;
              event = event;
            }))
  unfolding parse_subject parse_share_subject
  parse_share_subject-tokens valid =
      let e =
        split-subject dot ("share" ∷ corridor ∷ cabinet ∷ service ∷ controller ∷ event ∷ [])
          valid in
      (rw e, rw e)
