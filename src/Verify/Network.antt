-- ===== src/Verify/Network.antt =====
-- The HTTP round trips of internal/verify and internal/tour, through a network that is a parameter.
use vikasa_demo.Base.{
  ℕ, Bool, Char, code, String, [], ◌∷◌, Option, none, some, if◌then◌else◌, ◌==◌, texts, ℤ, Result,
  ok, err, ◌≡◌, inl, inr, Result-cases,
}
use vikasa_demo.Verify.Answers.{
  VerifyError, bad_request, no_response, no_body, bad_status, trim_space, trim_right,
}

-- A request that cannot be built, one without a response, and a response with its status and its body,
-- where that can be read.
pub data Reply : Type 0 where
  unbuilt unsent : Reply
  answered : ℕ → Option String → Reply

pub record Network : Type 1 where
  pub State : Type 0
  pub post : String → String → State → State × Reply
  pub get : String → State → State × Reply
  -- `%d` of an int64
  pub print_int : ℤ → String

-- code that acts on a state, and ends with a value or with an error
abbrev pub Live : Type 0 → Type 0 → Type 0 → Type 0
Live S E A = S → S × Result E A

abbrev pub continue_with : {S E A B : Type 0} → S × Result E A → (A → Live S E B) → S × Result E B
continue_with (s, ok x) next = next x s
continue_with (s, err e) next = (s, err e)

infixl 5 ◌>>=◌ ◌>>◌
abbrev pub ◌>>=◌ : {S E A B : Type 0} → Live S E A → (A → Live S E B) → Live S E B
(m >>= next) s = continue_with (m s) next

abbrev pub ◌>>◌ : {S E B : Type 0} → Live S E (Unit {0}) → Live S E B → Live S E B
m >> next = m >>= λ _. next

abbrev pub pure : {S E A : Type 0} → Result E A → Live S E A
pure r s = (s, r)

-- Code in two steps that ends with a value has done so after both.
pub >>=-ok :
    {S E A B : Type 0} (m : Live S E A) (next : A → Live S E B) (s s' : S) (y : B)
    → (m >>= next) s ≡ (s', ok y)
    → (x : A) × ((m s).1 ≡ ok x) × (next x (m s).0 ≡ (s', ok y))
>>=-ok m next s s' y h = elim (Result-cases (m s).1) [
  | inl (x, r) ↦ (x, r, rw r at h)
  | inr (e, r) ↦ let g = rw r at h in absurd (cc)
]

module _ (N : Network) where
  abbrev is_slash : Char → Bool
  is_slash c = code c == 47

  -- the base URL without the slashes at its end
  abbrev pub trim_slashes : String → String
  trim_slashes = trim_right is_slash

  unfoldable pub read_reply : Reply → Result VerifyError String
  unfolding trim_space
  read_reply unbuilt = err bad_request
  read_reply unsent = err no_response
  read_reply (answered status none) = err no_body
  read_reply (answered status (some body)) =
      let text = trim_space body in if status == 200 then ok text else err (bad_status status text)

  unfoldable pub ch_query : String → String → Live N.State VerifyError String
  unfolding read_reply
  ch_query ch query s =
      let (s', reply) = N.post (texts (trim_slashes ch ∷ "/" ∷ [])) query s in
      (s', read_reply reply)
