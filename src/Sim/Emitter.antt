-- ===== src/Sim/Emitter.antt =====
-- internal/sim/emitter.go, and the clock that the devices share. A time is a number of nanoseconds
-- since the Unix epoch, Go's zero time is `none`, and a device hands its events to the emitter in a
-- list, the first event first.
use vikasa_demo.Base.{ℕ, ◌%◌, ◌^◌, String, List, [], ◌∷◌, ◌++◌}

abbrev pub second : ℕ
second = 1_000_000_000

-- uint64 arithmetic wraps
abbrev pub u64 : ℕ → ℕ
u64 n = n % 2 ^ 64

-- One call of `Emit(controller, ceType, occurredAt, msg)`.
pub record Emission {ℓ} (M : Type ℓ) : Type ℓ where
  pub controller : String
  pub ce_type : String
  pub at : ℕ
  pub msg : M

-- The device in progress with the events that it has emitted.
pub record Out (D M : Type 0) : Type 0 where
  pub dev : D
  pub sent : List (Emission M)

abbrev pub emit {ℓ} : {M : Type ℓ} → List (Emission M) → Emission M → List (Emission M)
emit out e = out ++ e ∷ []
