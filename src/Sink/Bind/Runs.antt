-- ===== src/Sink/Bind/Runs.antt =====
-- The calls that the binding of internal/sink/consumer.go makes, whatever the stream answers.
use mathlib.Core.Path.{subst}
use vikasa_demo.Base.{
  ℕ, zero, suc, ◌+◌, ◌≤◌, ◌<◌, ◌≡◌, refl, ap, ◌∙◌, ◌⊎◌, Bool, true, false, Option, none, some,
  arith, ltb, inl, inr, Bool-cases, Option-cases,
}
use vikasa_demo.Sink.Bind.{
  Stream, bind_retry_attempts, max_config_heal_attempts, heal_config_mismatch, try_heal, Outcome,
  bound, stopped, gave_up, Binding, bind_from, bind_stream,
}

module _ (J : Stream) (limit : ℕ) where
  -- What is tried after an attempt that failed: a repair, until there were three.
  abbrev pub Repair : ℕ → J.State → J.State → Bool → Type 0
  Repair heals s s' repaired =
      ((heals < 3) × (heal_config_mismatch J limit s ≡ (s', repaired)))
      ⊎ ((3 ≤ heals) × (s ≡ s') × (repaired ≡ false))

  -- A run of the loop after some repairs, with each call that it makes: the attempts, of which each is
  -- a PullSubscribe, the repairs and the waits.
  pub data Run : ℕ → ℕ → ℕ → ℕ → J.State → Outcome J → J.State → Type 0 where
    exhausted : (heals : ℕ) (s : J.State) → Run heals 0 0 0 s gave_up s
    found :
        (heals : ℕ) (s s1 : J.State) (sub : J.Subscription)
        → J.pull_subscribe limit s ≡ (s1, some sub)
        → Run heals 1 0 0 s (bound sub) s1
    ended :
        (heals : ℕ) (s s1 s2 : J.State)
        → J.pull_subscribe limit s ≡ (s1, none)
        → Repair heals s1 s2 false
        → J.cancelled s2 ≡ true
        → Run heals 1 0 0 s stopped s2
    healed :
        (heals a h w : ℕ) (s s1 s2 end : J.State) (o : Outcome J)
        → J.pull_subscribe limit s ≡ (s1, none)
        → Repair heals s1 s2 true
        → Run (suc heals) a h w s2 o end
        → Run heals (suc a) (suc h) w s o end
    slept :
        (heals a h w : ℕ) (s s1 s2 end : J.State) (o : Outcome J)
        → J.pull_subscribe limit s ≡ (s1, none)
        → Repair heals s1 s2 false
        → J.cancelled s2 ≡ false
        → Run heals a h w (J.wait s2) o end
        → Run heals (suc a) h (suc w) s o end

  try_heal-Repair :
      (heals : ℕ) (s : J.State)
      → Repair heals s (try_heal J limit heals s).0 (try_heal J limit heals s).1
  try_heal-Repair heals s = elim (Bool-cases (ltb heals max_config_heal_attempts)) [
    | inl e ↦ rw e (inl (ground (arith, e), refl))
    | inr e ↦ rw e (inr (ground (arith, e), refl, refl))
  ]

  -- The run of a binding with its counts, on the attempts that are left.
  record Counted (left heals waits : ℕ) (s : J.State) (b : Binding J) : Type 0 where
    pub attempts : ℕ
    pub more_heals : ℕ
    pub more_waits : ℕ
    pub run : Run heals attempts more_heals more_waits s b.outcome b.state
    pub heals_count : b.heals ≡ heals + more_heals
    pub waits_count : b.waits ≡ waits + more_waits
    pub in_budget : attempts ≤ left
    pub few : heals ≤ 3 → b.heals ≤ 3
    pub last : b.outcome ≡ gave_up → attempts ≡ left

  Repair-true : (heals : ℕ) (s s' : J.State) → Repair heals s s' true → heals < 3
  Repair-true heals s s' (inl (h, e)) = h
  Repair-true heals s s' (inr (h, e, f)) = absurd (cc)

  pull_lem :
      {r : Option J.Subscription} (s : J.State)
      → (J.pull_subscribe limit s).1 ≡ r
      → J.pull_subscribe limit s ≡ ((J.pull_subscribe limit s).0, r)
  pull_lem s e = ap (λ x. ((J.pull_subscribe limit s).0, x)) e

  bind_from-Counted :
      (left heals waits : ℕ) (s : J.State)
      → Counted left heals waits s (bind_from J limit left heals waits s)
  unfolding bind_from
  bind_from-Counted zero heals waits s = record {
    attempts = 0;
    more_heals = 0;
    more_waits = 0;
    run = exhausted heals s;
    heals_count = omega arith;
    waits_count = omega arith;
    in_budget = omega arith;
    few = λ h. h;
    last = λ _. refl;
  }
  bind_from-Counted (suc left) heals waits s = elim (Option-cases (J.pull_subscribe limit s).1) [
    | inl e ↦
        let s1 = (J.pull_subscribe limit s).0 in
        let s2 = (try_heal J limit heals s1).0 in
        let pulled = pull_lem s e in
        let repair = try_heal-Repair heals s1 in
        elim (Bool-cases (try_heal J limit heals s1).1) [
          | inl f ↦
              let r = bind_from-Counted left (suc heals) waits s2 in
              let repaired = subst (Repair heals s1 s2) f repair in
              let room = Repair-true heals s1 s2 repaired in
              rw (e, bind_from)
                (rw (f, bind_from)
                  (record {
                    attempts = suc r.attempts;
                    more_heals = suc r.more_heals;
                    more_waits = r.more_waits;
                    run =
                        healed heals r.attempts r.more_heals r.more_waits s s1 s2 _ _ pulled
                          repaired r.run;
                    heals_count = r.heals_count ∙ omega arith;
                    waits_count = r.waits_count;
                    in_budget = omega (arith, r.in_budget);
                    few = λ _. r.few (omega (arith, room));
                    last = λ g. ap (λ n. suc n) (r.last g);
                  }))
          | inr f ↦
              let unrepaired = subst (Repair heals s1 s2) f repair in
              elim (Bool-cases (J.cancelled s2)) [
                | inl c ↦
                    rw (e, bind_from)
                      (rw (f, c)
                        (record {
                          attempts = 1;
                          more_heals = 0;
                          more_waits = 0;
                          run = ended heals s s1 s2 pulled unrepaired c;
                          heals_count = omega arith;
                          waits_count = omega arith;
                          in_budget = omega arith;
                          few = λ h. h;
                          last = λ g. absurd (cc);
                        }))
                | inr c ↦
                    let r = bind_from-Counted left heals (suc waits) (J.wait s2) in
                    rw (e, bind_from)
                      (rw (f, c)
                        (record {
                          attempts = suc r.attempts;
                          more_heals = r.more_heals;
                          more_waits = suc r.more_waits;
                          run =
                              slept heals r.attempts r.more_heals r.more_waits s s1 s2 _ _ pulled
                                unrepaired c r.run;
                          heals_count = r.heals_count;
                          waits_count = r.waits_count ∙ omega arith;
                          in_budget = omega (arith, r.in_budget);
                          few = r.few;
                          last = λ g. ap (λ n. suc n) (r.last g);
                        }))
              ]
        ]
    | inr (sub, e) ↦
        rw (e, bind_from)
          (record {
            attempts = 1;
            more_heals = 0;
            more_waits = 0;
            run = found heals s _ sub (pull_lem s e);
            heals_count = omega arith;
            waits_count = omega arith;
            in_budget = omega arith;
            few = λ h. h;
            last = λ f. absurd (cc);
          })
  ]

  -- What a binding keeps to.
  abbrev KeepsTo : J.State → Binding J → Type 0
  KeepsTo s b =
      (attempts : ℕ) × Run 0 attempts b.heals b.waits s b.outcome b.state
      × (attempts ≤ 60)
      × (b.heals ≤ 3)
      × (b.outcome ≡ gave_up → attempts ≡ 60)

  kept : (s : J.State) (b : Binding J) → Counted bind_retry_attempts 0 0 s b → KeepsTo s b
  kept s b r =
      let h : r.more_heals ≡ b.heals = omega (arith, r.heals_count) in
      let w : r.more_waits ≡ b.waits = omega (arith, r.waits_count) in
      (
        r.attempts,
        subst (λ n. Run 0 r.attempts n b.waits s b.outcome b.state) h
            (subst (λ n. Run 0 r.attempts r.more_heals n s b.outcome b.state) w r.run),
        r.in_budget,
        r.few (omega arith),
        r.last,
      )

  -- However the stream answers, the binding is a run of calls with at most 60 attempts, at most 3
  -- repairs, and the repairs and waits that it counts; and it gives up only after all 60 attempts.
  pub bind_stream_bounds :
      (s : J.State)
      → let b = bind_stream J limit s in
        (attempts : ℕ) × Run 0 attempts b.heals b.waits s b.outcome b.state
        × (attempts ≤ 60)
        × (b.heals ≤ 3)
        × (b.outcome ≡ gave_up → attempts ≡ 60)
  unfolding bind_stream
  bind_stream_bounds s = kept s _ (bind_from-Counted bind_retry_attempts 0 0 s)
