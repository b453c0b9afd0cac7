-- ===== src/Sim/Perception/Poisson.antt =====
-- The Poisson draw of internal/sim/camera.go: the fuel of its loop is enough.
use vikasa_demo.Base.{ℕ, zero, suc, ◌+◌, ◌-◌, ◌^◌, ◌≤◌, ◌≡◌, refl, ap, ◌∙◌, true, false, arith}
use vikasa_demo.Sim.Runtime.{Runtime}
use vikasa_demo.Sim.Perception.{poisson_loop, poisson_draw}

module _ (N : Runtime) where
  open N use {F, R, lit, mul, exp_neg, le, uniform}

  -- The product of the uniform draws from a generator on, times `p`, falls to `l` at the n-th draw and
  -- at none before, which leaves the generator `end`.
  pub data Falls (l : F) : F → R → ℕ → R → Type 0 where
    at_once :
        (p : F) (rng : R) → le (mul p (uniform rng).0) l ≡ true → Falls l p rng 1 (uniform rng).1
    later :
        (p : F) (rng : R) (n : ℕ) (end : R)
        → le (mul p (uniform rng).0) l ≡ false
        → Falls l (mul p (uniform rng).0) (uniform rng).1 n end
        → Falls l p rng (suc n) end

  poisson_loop-Falls :
      (fuel : ℕ) (l : F) (k : ℕ) (p : F) (rng : R) (n : ℕ) (end : R)
      → Falls l p rng n end
      → n ≤ fuel
      → poisson_loop N fuel l k p rng ≡ (k + n, end)
  unfolding poisson_loop
  poisson_loop-Falls zero l k _ _ _ _ (at_once p rng e) h = absurd (omega (arith, h))
  poisson_loop-Falls zero l k _ _ _ _ (later p rng n end e f) h = absurd (omega (arith, h))
  poisson_loop-Falls (suc fuel) l k _ _ _ _ (at_once p rng e) h = rw (e, poisson_loop) refl
  poisson_loop-Falls (suc fuel) l k _ _ _ _ (later p rng n end e f) h =
      rw (e, poisson_loop)
        (poisson_loop-Falls fuel l (k + 1) (mul p (uniform rng).0) (uniform rng).1 n end f
            (omega (arith, h))
          ∙ ap (λ m. (m, end)) (omega arith))

  -- For a mean above 0, the draw is one less than the number of uniform draws whose product falls to
  -- the exponential of the negated mean, as long as a uint32 can count them.
  pub poisson_draw-Falls :
      (lambda : F) (rng : R) (n : ℕ) (end : R)
      → le lambda (lit 0 1) ≡ false
      → Falls (exp_neg lambda) (lit 1 1) rng n end
      → n ≤ 2 ^ 32
      → poisson_draw N rng lambda ≡ (n - 1, end)
  unfolding poisson_draw
  poisson_draw-Falls lambda rng n end e f h =
      rw (e, poisson_loop-Falls (2 ^ 32) (exp_neg lambda) 0 (lit 1 1) rng n end f h)
        (ap (λ m. (m, end)) (omega arith))
