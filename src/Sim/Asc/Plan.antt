-- ===== src/Sim/Asc/Plan.antt =====
-- The fixed ring of internal/sim/asc.go.
use vikasa_demo.Base.{ℕ, zero, suc, String}

pub record PhaseDef : Type 0 where
  pub number : ℕ
  pub green_sec : ℕ
  pub approach : String
  pub channel : ℕ

abbrev pub plan_len : ℕ
plan_len = 4

-- plan[i]; a controller's index stays below 4
abbrev pub phase_at : ℕ → PhaseDef
phase_at zero = record { number = 2; green_sec = 30; approach = "nb"; channel = 1 }
phase_at (suc zero) = record { number = 4; green_sec = 10; approach = "eb"; channel = 2 }
phase_at (suc (suc zero)) = record { number = 6; green_sec = 20; approach = "sb"; channel = 3 }
phase_at (suc (suc (suc n))) = record { number = 8; green_sec = 10; approach = "wb"; channel = 4 }
