-- ===== src/Base/Every.antt =====
-- The catch-up loop that every periodic device activity runs,
-- `for !now.Before(next) { body(next); next = next.Add(period) }`, with its laws.
-- A turn moves `next` on by a positive period, so `now + 1 - next` turns are enough.
use Prim.Native.Nat.{ℕ, zero, suc, ◌+◌, ◌-◌, ◌*◌, ◌≤◌, ◌<◌}
use mathlib.Core.Path.{◌≡◌, refl, sym, ap, ◌∙◌}
use mathlib.Core.Logic.{inl, inr}
use mathlib.Core.Bool.{true, false}
use mathlib.Core.List.{List, [], ◌∷◌, ◌++◌, map, append-nil, append_assoc}
use native.Mathlib.Omega.{arith}
use vikasa_demo.Base.Tests.{ltb, Bool-cases, ltb→lt, ltb→le, lt→ltb, le→ltb}

module _ {ℓ} {S : Type ℓ} (period : ℕ) (body : ℕ → S → S) where
  -- The deadline and the state that the loop ends with.
  turns : ℕ → ℕ → ℕ → S → ℕ × S
  turns zero now next s = (next, s)
  turns (suc fuel) now next s = elim (ltb now next) [
    | true ↦ (next, s)
    | false ↦ turns fuel now (next + period) (body next s)
  ]

  unfoldable pub every : ℕ → ℕ → S → ℕ × S
  unfolding turns
  every now next s = turns (now + 1 - next) now next s

  turns_done : (fuel now next : ℕ) (s : S) → now < next → turns fuel now next s ≡ (next, s)
  unfolding turns
  turns_done zero now next s h = refl
  turns_done (suc fuel) now next s h = rw (lt→ltb now next h, turns)

  turns_step :
      (fuel now next : ℕ) (s : S)
      → next ≤ now
      → turns (suc fuel) now next s ≡ turns fuel now (next + period) (body next s)
  unfolding turns
  turns_step fuel now next s h = rw (le→ltb now next h, turns)

  turns_fuel :
      (f g now next : ℕ) (s : S)
      → 0 < period
      → now < next + f
      → now < next + g
      → turns f now next s ≡ turns g now next s
  unfolding turns
  turns_fuel zero g now next s p hf hg = sym (turns_done g now next s (omega arith))
  turns_fuel (suc f) zero now next s p hf hg = turns_done (suc f) now next s (omega arith)
  turns_fuel (suc f) (suc g) now next s p hf hg = elim (Bool-cases (ltb now next)) [
    | inl e ↦
        turns_done (suc f) now next s (ltb→lt _ _ e)
        ∙ sym (turns_done (suc g) now next s (ltb→lt _ _ e))
    | inr e ↦
        turns_step f now next s (ltb→le _ _ e)
        ∙ turns_fuel f g now (next + period) (body next s) p (omega arith) (omega arith)
        ∙ sym (turns_step g now next s (ltb→le _ _ e))
  ]

  pub every_done : (now next : ℕ) (s : S) → now < next → every now next s ≡ (next, s)
  unfolding every
  every_done now next s h = turns_done _ now next s h

  -- The loop is its own unrolling: the fuel never runs out.
  pub every_step :
      (now next : ℕ) (s : S)
      → 0 < period
      → next ≤ now
      → every now next s ≡ every now (next + period) (body next s)
  unfolding every
  every_step now next s p h =
      turns_fuel (now + 1 - next) (suc (now - next)) now next s p (omega arith) (omega arith)
      ∙ turns_step (now - next) now next s h
      ∙ turns_fuel (now - next) (now + 1 - (next + period)) now (next + period) (body next s) p
          (omega arith) (omega arith)

  -- Induction over the turns of the loop: at its end, and over one more turn in front.
  pub every_ind {κ} :
      (now : ℕ) (P : ℕ → S → Type κ)
      → 0 < period
      → ((next : ℕ) (s : S) → now < next → P next s)
      → ((next : ℕ) (s : S) → next ≤ now → P (next + period) (body next s) → P next s)
      → (next : ℕ) (s : S) → P next s
  every_ind now P p done step next s = go (now + 1 - next) next s (omega arith)
    where
      go : (f next : ℕ) (s : S) → now < next + f → P next s
      go zero next s h = done next s (omega arith)
      go (suc f) next s h = elim (Bool-cases (ltb now next)) [
        | inl e ↦ done next s (ltb→lt _ _ e)
        | inr e ↦ step next s (ltb→le _ _ e) (go f (next + period) (body next s) (omega arith))
      ]

module _ {ℓ} {S : Type ℓ} (period : ℕ) (body : ℕ → S → S) (p : 0 < period) where
  -- Afterwards the deadline lies in the future.
  pub every_future : (now next : ℕ) (s : S) → now < (every period body now next s).0
  every_future now =
      every_ind period body now (λ n t. now < (every period body now n t).0) p
        (λ n t h. rw (every_done period body now n t h) h)
        (λ n t h ih. rw (every_step period body now n t p h) ih)

  -- It is at most one period away, if it was not further away before.
  pub every_near :
      (now next : ℕ) (s : S) → next ≤ now + period → (every period body now next s).0 ≤ now + period
  every_near now =
      every_ind period body now
        (λ n t. n ≤ now + period → (every period body now n t).0 ≤ now + period) p
        (λ n t h e. rw (every_done period body now n t h) e)
        (λ n t h ih e. rw (every_step period body now n t p h) (ih (omega (arith, h))))

  -- An invariant of the body is one of the loop.
  pub every_inv {κ} :
      (P : S → Type κ)
      → ((at : ℕ) (s : S) → P s → P (body at s))
      → (now next : ℕ) (s : S) → P s
      → P (every period body now next s).1
  every_inv P keep now =
      every_ind period body now (λ n t. P t → P (every period body now n t).1) p
        (λ n t h pt. rw (every_done period body now n t h) pt)
        (λ n t h ih pt. rw (every_step period body now n t p h) (ih (keep n t pt)))

  -- Catching up in two goes is catching up in one.
  pub every_split :
      (soon late next : ℕ) (s : S)
      → soon ≤ late
      → every period body late (every period body soon next s).0 (every period body soon next s).1
        ≡ every period body late next s
  every_split soon late next s h =
      every_ind period body soon
        (λ n t.
          every period body late (every period body soon n t).0 (every period body soon n t).1
          ≡ every period body late n t)
        p (λ n t lt. rw (every_done period body soon n t lt))
        (λ n t le ih.
          rw (every_step period body soon n t p le)
            (ih ∙ sym (every_step period body late n t p (omega (arith, le, h)))))
        next s

-- The deadlines that the loop serves, described without it: `count` of them from `next` on.
unfoldable pub slots : ℕ → ℕ → ℕ → List ℕ
slots period zero next = []
slots period (suc count) next = next ∷ slots period count (next + period)

module _ {ℓ κ} {S : Type ℓ} {X : Type κ} (period : ℕ) (body : ℕ → S → S) (p : 0 < period) where
  -- What the body records of each deadline is recorded for an unbroken row of deadlines.
  pub every-slots :
      (log : S → List X) (f : ℕ → X)
      → ((at : ℕ) (s : S) → log (body at s) ≡ log s ++ f at ∷ [])
      → (now next : ℕ) (s : S)
      → (k : ℕ) × ((every period body now next s).0 ≡ next + k * period)
        × (log (every period body now next s).1 ≡ log s ++ map f (slots period k next))
  unfolding slots
  every-slots log f rec now =
      every_ind period body now
        (λ n t.
          (k : ℕ) × ((every period body now n t).0 ≡ n + k * period)
          × (log (every period body now n t).1 ≡ log t ++ map f (slots period k n)))
        p
        (λ n t h. rw (every_done period body now n t h) (0, omega arith, sym (append-nil (log t))))
        (λ n t h (k, e, l). (
          suc k,
          rw (every_step period body now n t p h) (rw e (omega arith)),
          rw (every_step period body now n t p h) (
              l
              ∙ ap (λ x. x ++ map f (slots period k (n + period))) (rec n t)
              ∙ append_assoc (log t) (f n ∷ []) _),
        ))
