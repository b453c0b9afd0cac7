-- ===== src/Sim/Runtime.antt =====
-- What the simulator takes from Go's runtime: floating-point arithmetic, the seeded generator of
-- math/rand (the seed as its 64 bits), the hash of hash/fnv, and the order in which a `range` visits a map. The laws are those of the IEEE
-- comparison, which hold with NaN too.
use vikasa_demo.Base.{ℕ, ◌≡◌, String, Bool, true, false, List}

pub record Runtime : Type 1 where
  pub F : Type 0
  pub R : Type 0
  -- the constant n / d
  pub lit : ℕ → ℕ → F
  pub pi : F
  pub of_ℕ : ℕ → F
  -- conversion to an integer, and `math.Round` before it, of a value that is not negative
  pub trunc : F → ℕ
  pub round : F → ℕ
  pub add : F → F → F
  pub sub : F → F → F
  pub mul : F → F → F
  pub div : F → F → F
  pub sqrt : F → F
  pub sin : F → F
  pub exp_neg : F → F
  pub lt : F → F → Bool
  pub le : F → F → Bool
  pub seed : ℕ → R
  pub fnv64a : String → ℕ
  -- strconv.FormatFloat with one decimal
  pub format : F → String
  pub uniform : R → F × R
  pub exponential : R → F × R
  pub visit : List (ℕ × ℕ) → List (ℕ × ℕ)
  pub lt_irrefl : (a : F) → lt a a ≡ false
  pub lt_trans : (a b c : F) → lt a b ≡ true → lt b c ≡ true → lt a c ≡ true
