-- ===== src/Base/Maps.antt =====
-- Go's maps: association lists with one entry for a key, over keys with a Boolean equality.
use Prim.Native.Nat.{ℕ}
use Prim.Native.String.{String}
use mathlib.Core.Path.{◌≡◌, refl}
use mathlib.Core.Logic.{◌↔◌}
use mathlib.Core.Bool.{Bool, true, false}
use mathlib.Core.Option.{Option, none, some}
use mathlib.Core.List.{List, [], ◌∷◌}
use native.Mathlib.Omega.{arith}
use text.Mathlib.Text.{◌==◌ as str_eq}
use text.Mathlib.TextEquality.{eq_iff}
use mathlib.Core.Path.{subst}
use mathlib.Core.Logic.{inl, inr}
use vikasa_demo.Base.Tests.{◌==◌, ==_iff, if◌then◌else◌, Bool-cases}
use vikasa_demo.Base.Lists.{All}

pub record Eq {ℓ} (K : Type ℓ) : Type ℓ where
  pub beq : K → K → Bool
  pub beq_iff : (a b : K) → (beq a b ≡ true) ↔ (a ≡ b)

instance abbrev pub nat_eq : Eq ℕ
nat_eq = record { beq = ◌==◌; beq_iff = ==_iff }

instance abbrev pub string_eq : Eq String
string_eq = record { beq = str_eq; beq_iff = eq_iff }

abbrev pub Dict {ℓ κ} : Type ℓ → Type κ → Type (ℓ ⊔ κ)
Dict K V = List (K × V)

module _ {ℓ κ} {K : Type ℓ} {V : Type κ} ⦃e : Eq K⦄ where
  -- v, ok := m[k]
  unfoldable pub get : K → Dict K V → Option V
  get k [] = none
  get k ((j, v) ∷ m) = if e.beq j k then some v else get k m

  -- delete(m, k)
  unfoldable pub remove : K → Dict K V → Dict K V
  remove k [] = []
  remove k ((j, v) ∷ m) = let rest = remove k m in if e.beq j k then rest else (j, v) ∷ rest

  -- m[k] = v
  unfoldable pub put : K → V → Dict K V → Dict K V
  put k v [] = (k, v) ∷ []
  put k v ((j, w) ∷ m) = let rest = put k v m in if e.beq j k then (k, v) ∷ m else (j, w) ∷ rest

  pub get-remove :
      (k j : K) (m : Dict K V) → get j (remove k m) ≡ (if e.beq k j then none else get j m)
  unfolding get remove
  get-remove k j [] = ground arith
  get-remove k j ((i, v) ∷ m) =
      ground (arith, get-remove k j m, e.beq_iff i k, e.beq_iff i j, e.beq_iff k j)

  pub get-put :
      (k j : K) (v : V) (m : Dict K V) → get j (put k v m) ≡ (if e.beq k j then some v else get j m)
  unfolding get put
  get-put k j v [] = refl
  get-put k j v ((i, w) ∷ m) =
      ground (arith, get-put k j v m, e.beq_iff i k, e.beq_iff i j, e.beq_iff k j)

-- len(m) > 0
abbrev pub is_nonempty {ℓ} : {A : Type ℓ} → List A → Bool
is_nonempty [] = false
is_nonempty (_ ∷ _) = true

module _ {ℓ κ} {K : Type ℓ} {V : Type κ} ⦃e : Eq K⦄ where
  -- A map is empty exactly when no key has a value.
  pub nonempty_of_get : (k : K) (v : V) (m : Dict K V) → get k m ≡ some v → is_nonempty m ≡ true
  unfolding get
  nonempty_of_get k v [] h = cc
  nonempty_of_get k v (x ∷ m) h = refl

  pub get_of_nonempty :
      (m : Dict K V) → is_nonempty m ≡ true → (k : K) × (v : V) × (get k m ≡ some v)
  unfolding get
  get_of_nonempty [] h = absurd (cc)
  get_of_nonempty ((k, v) ∷ m) h = (k, v, ground (arith, e.beq_iff k k))

  -- What holds of every entry holds of the entry that is found.
  pub All-get {μ} :
      (P : V → Type μ) (k : K) (v : V) (m : Dict K V)
      → All (λ (j, w). P w) m
      → get k m ≡ some v
      → P v
  unfolding get
  All-get P k v [] h g = absurd (cc)
  All-get P k v ((j, w) ∷ m) h g = elim (Bool-cases (e.beq j k)) [
    | inl q ↦ let p : w ≡ v = cc (rw q at g) in subst P p h.0
    | inr q ↦ All-get P k v m h.1 (rw q at g)
  ]
