-- ===== src/Sink/Bind/Attempts.antt =====
-- How the binding of internal/sink/consumer.go ends.
use vikasa_demo.Base.{
  ℕ, zero, suc, ◌+◌, ◌<◌, ◌≡◌, ◌≢◌, refl, ap, ◌∙◌, Bool, true, false, none, some, arith, lt→ltb,
  if◌then◌else◌,
}
use vikasa_demo.Sink.Bind.{
  Stream, bind_retry_attempts, max_config_heal_attempts, heal_config_mismatch, try_heal, bound,
  Binding, bind_from, bind_stream,
}

module _ (J : Stream) (limit : ℕ) where
  -- Failing attempts that lead from a stream to another, with the repairs and the waits between them.
  pub data Tries : ℕ → ℕ → J.State → J.State → Type 0 where
    here : (s : J.State) → Tries 0 0 s s
    repaired :
        (h w : ℕ) (s s1 s2 end : J.State)
        → J.pull_subscribe limit s ≡ (s1, none)
        → heal_config_mismatch J limit s1 ≡ (s2, true)
        → Tries h w s2 end
        → Tries (suc h) w s end
    waited :
        (h w : ℕ) (s s1 s2 end : J.State)
        → J.pull_subscribe limit s ≡ (s1, none)
        → heal_config_mismatch J limit s1 ≡ (s2, false)
        → J.cancelled s2 ≡ false
        → Tries h w (J.wait s2) end
        → Tries h (suc w) s end

  heal_early :
      (heals : ℕ) (s s1 s2 : J.State) (r : Bool)
      → heals < max_config_heal_attempts
      → J.pull_subscribe limit s ≡ (s1, none)
      → heal_config_mismatch J limit s1 ≡ (s2, r)
      → try_heal J limit heals (J.pull_subscribe limit s).0 ≡ (s2, r)
  heal_early heals s s1 s2 r h e f =
      rw (lt→ltb heals max_config_heal_attempts h)
        (ap (λ x. heal_config_mismatch J limit x.0) e ∙ f)

  abbrev pub bound_after : J.Subscription → J.State → ℕ → ℕ → Binding J
  bound_after sub s heals waits = record {
    outcome = bound sub;
    state = s;
    heals = heals;
    waits = waits;
  }

  bound_after_cong :
      (sub : J.Subscription) (s t : J.State) (a b c d : ℕ)
      → s ≡ t
      → a ≡ c
      → b ≡ d
      → bound_after sub s a b ≡ bound_after sub t c d
  bound_after_cong sub s t a b c d e f g = cc

  bind_from-Tries :
      (h w : ℕ) (s end : J.State) (left heals waits : ℕ) (sub : J.Subscription) (final : J.State)
      → Tries h w s end
      → heals + h < max_config_heal_attempts
      → h + w < left
      → J.pull_subscribe limit end ≡ (final, some sub)
      → bind_from J limit left heals waits s ≡ bound_after sub final (heals + h) (waits + w)
  unfolding bind_from
  bind_from-Tries h w s end zero heals waits sub final t room few found = absurd (omega arith)
  bind_from-Tries _ _ s _ (suc left) heals waits sub final (here _) room few found =
      rw (ap (λ x. x.1) found, bind_from)
        (bound_after_cong sub _ _ _ _ _ _ (ap (λ x. x.0) found) (omega arith) (omega arith))
  bind_from-Tries _ _ s end (suc left) heals waits sub final (repaired h w _ s1 s2 _ e f t) room few
        found =
      let g = heal_early heals s s1 s2 true (omega arith) e f in
      rw (ap (λ x. x.1) e, bind_from)
        (rw (ap (λ x. x.1) g, ap (λ x. x.0) g, bind_from)
          (bind_from-Tries h w s2 end left (suc heals) waits sub final t (omega arith) (omega arith)
              found
            ∙ bound_after_cong sub _ _ _ _ _ _ refl (omega arith) refl))
  bind_from-Tries _ _ s end (suc left) heals waits sub final (waited h w _ s1 s2 _ e f c t) room few
        found =
      let g = heal_early heals s s1 s2 false (omega arith) e f in
      rw (ap (λ x. x.1) e, bind_from)
        (rw (ap (λ x. x.1) g, bind_from)
          (rw (ap (λ x. x.0) g, c, bind_from)
            (rw (ap (λ x. x.0) g, bind_from)
              (bind_from-Tries h w _ end left heals (suc waits) sub final t (omega arith)
                  (omega arith) found
                ∙ bound_after_cong sub _ _ _ _ _ _ refl refl (omega arith)))))

  -- When attempts that fail, with at most two repairs among them and fewer than 60 in all, lead to a
  -- stream that can be bound, and the context is not cancelled while it waits, the binding reaches that
  -- stream, having repaired and waited exactly so often.
  pub bind_stream-Tries :
      (h w : ℕ) (s end : J.State) (sub : J.Subscription) (final : J.State)
      → Tries h w s end
      → h < 3
      → h + w < 60
      → J.pull_subscribe limit end ≡ (final, some sub)
      → bind_stream J limit s ≡ bound_after sub final h w
  unfolding bind_stream
  bind_stream-Tries h w s end sub final t room few found =
      bind_from-Tries h w s end bind_retry_attempts 0 0 sub final t (omega arith) (omega arith)
        found
      ∙ bound_after_cong sub _ _ _ _ _ _ refl (omega arith) (omega arith)

  -- A repair changes nothing and is no success without a limit asked for, without a durable consumer,
  -- or where its limit is the one asked for; where it is another, the repair succeeds exactly when the
  -- consumer can be updated or, failing that, deleted.
  pub heal_config_mismatch_lem :
      (s : J.State)
      → (limit ≡ 0 → heal_config_mismatch J limit s ≡ (s, false))
        × (J.consumer_info s ≡ none → heal_config_mismatch J limit s ≡ (s, false))
        × (J.consumer_info s ≡ some limit → heal_config_mismatch J limit s ≡ (s, false))
        × ((n : ℕ)
            → J.consumer_info s ≡ some n
            → n ≢ limit
            → limit ≢ 0
            → (heal_config_mismatch J limit s).1 ≡ (
                if (J.update_consumer limit s).1
                then true
                else (J.delete_consumer (J.update_consumer limit s).0).1))
  unfolding heal_config_mismatch
  heal_config_mismatch_lem s = (
    (λ e. ground arith),
    (λ e. rw e (ground arith)),
    (λ e. rw e (ground arith)),
    (λ n e d z. rw e (ground arith)),
  )
