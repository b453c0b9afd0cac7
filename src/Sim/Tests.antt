-- ===== src/Sim/Tests.antt =====
-- A runtime with fixed-point numbers and a generator that counts, for the tests of the simulator.
mod Signals
mod Signs
mod Sensors
mod Publishing
mod Scenarios
mod Cabinets
use vikasa_demo.Base.{ℕ, ◌+◌, ◌-◌, ◌*◌, ◌/◌, ◌%◌, ◌≡◌, true, false, arith, ltb, leb}
use vikasa_demo.Sim.Runtime.{Runtime}
use vikasa_demo.Sim.Demand.{Demand, new_demand}

ltb_irrefl : (a : ℕ) → ltb a a ≡ false
ltb_irrefl a = ground arith

ltb_trans : (a b c : ℕ) → ltb a b ≡ true → ltb b c ≡ true → ltb a c ≡ true
ltb_trans a b c h k = ground arith

-- thousandths
abbrev thousandths : Runtime
thousandths = record {
  F = ℕ;
  R = ℕ;
  lit = λ n d. n * 1000 / d;
  pi = 3142;
  of_ℕ = λ n. n * 1000;
  trunc = λ x. x / 1000;
  round = λ x. (x + 500) / 1000;
  add = λ x y. x + y;
  sub = λ x y. x - y;
  mul = λ x y. x * y / 1000;
  div = λ x y. x * 1000 / y;
  sqrt = λ x. x;
  sin = λ x. 0;
  exp_neg = λ x. 0;
  lt = ltb;
  le = leb;
  seed = λ n. n;
  fnv64a = λ s. 17;
  format = λ x. "1.0";
  uniform = λ r. (r * 37 % 1000, r + 1);
  exponential = λ r. (1000, r + 1);
  visit = λ m. m;
  lt_irrefl = ltb_irrefl;
  lt_trans = ltb_trans;
}

abbrev demand : Demand thousandths
demand = new_demand thousandths 7 900_000
