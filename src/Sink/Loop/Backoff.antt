-- ===== src/Sink/Loop/Backoff.antt =====
-- How long the loop of internal/sink/consumer.go waits, and what it has acknowledged.
use mathlib.Core.Path.{subst}
use Prim.Native.Nat.{min}
use native.Mathlib.Nat.{pow-suc}
use vikasa_demo.Base.{
  ℕ, zero, suc, ◌*◌, ◌^◌, ◌≤◌, ◌≡◌, refl, sym, ap, ◌∙◌, String, List, [], ◌∷◌, ◌++◌, Bool, true,
  false, All, All-append, All-imp, append-nil, append_assoc, Bool-cases, inl, inr, arith,
}
use vikasa_demo.Events.Wire.{Wire}
use vikasa_demo.Events.Envelope.{Msg}
use vikasa_demo.Sink.Decoder.{Decoder}
use vikasa_demo.Sink.Rows.{Row, Inserter}
use vikasa_demo.Sink.Batch.{Cause, World, process_batch}
use vikasa_demo.Sink.Batch.Durability.{Storage}
use vikasa_demo.Sink.Batch.Acks.{IsDurable, process_batch-IsDurable}
use vikasa_demo.Sink.Loop.{
  backoff_min, backoff_max, next_backoff, Fetched, timed_out, fetch_failed, fetched, Consumer,
  back_off, after_batch, turn, run,
}

abbrev pub InRange : ℕ → Type 0
InRange b = (backoff_min ≤ b) × (b ≤ backoff_max)

next_backoff-InRange : (b : ℕ) → InRange b → InRange (next_backoff b)
unfolding next_backoff
next_backoff-InRange b h = ground arith

next_backoff-min : (b : ℕ) → next_backoff b ≡ min (b * 2) backoff_max
unfolding next_backoff
next_backoff-min b = ground arith

module _ (W : Wire) (D : Decoder) (I : Inserter D) (explain : Cause → String) where
  -- The waits so far and the next one are in range.
  pub record IsPaced (c : Consumer W D I explain) : Type 0 where
    pub coming : InRange c.backoff
    pub past : All InRange c.waits

  back_off-IsPaced : (c : Consumer W D I explain) → IsPaced c → IsPaced (back_off W D I explain c)
  unfolding back_off
  back_off-IsPaced c p = record {
    coming = next_backoff-InRange c.backoff p.coming;
    past = All-append InRange c.waits (c.backoff ∷ []) p.past (p.coming, tt);
  }

  turn-IsPaced :
      (f : Fetched W D I explain) (c : Consumer W D I explain)
      → IsPaced c
      → IsPaced (turn W D I explain f c)
  unfolding turn
  turn-IsPaced timed_out c p = p
  turn-IsPaced fetch_failed c p = back_off-IsPaced c p
  turn-IsPaced (fetched []) c p = p
  turn-IsPaced (fetched (m ∷ ms)) c p =
      after (process_batch W D I explain (m ∷ ms) c.world).0
        (process_batch W D I explain (m ∷ ms) c.world).1
    where
      after : (b : Bool) (w : World W D I explain) → IsPaced (after_batch W D I explain b w c)
      after true w = record { coming = omega arith; past = p.past }
      after false w = back_off-IsPaced _ (record { coming = p.coming; past = p.past })

  run-IsPaced :
      (fs : List (Fetched W D I explain)) (c : Consumer W D I explain)
      → IsPaced c
      → IsPaced (run W D I explain fs c)
  unfolding run
  run-IsPaced [] c p = p
  run-IsPaced (f ∷ fs) c p = run-IsPaced fs (turn W D I explain f c) (turn-IsPaced f c p)

  abbrev pub start : World W D I explain → Consumer W D I explain
  start w = record { world = w; backoff = backoff_min; waits = [] }

  -- Whatever the fetches and the flushes of a run give, every wait is at least 100ms and at most 5s.
  pub run_waits :
      (fs : List (Fetched W D I explain)) (w : World W D I explain)
      → All InRange (run W D I explain fs (start w)).waits
  run_waits fs w = (run-IsPaced fs (start w) (record { coming = omega arith; past = tt })).past

  -- n turns in which the fetch fails
  abbrev pub failures : ℕ → List (Fetched W D I explain)
  failures zero = []
  failures (suc n) = fetch_failed ∷ failures n

  -- The n-th of a row of failures, counted from 0, waits 100ms * 2^n, or 5s where that is less.
  abbrev pub paces : ℕ → ℕ → List ℕ
  paces zero k = []
  paces (suc n) k = min (backoff_min * 2 ^ k) backoff_max ∷ paces n (suc k)

  next_pace :
      (k : ℕ)
      → next_backoff (min (backoff_min * 2 ^ k) backoff_max)
        ≡ min (backoff_min * 2 ^ suc k) backoff_max
  next_pace k = next_backoff-min _ ∙ omega (arith, pow-suc 2 k)

  run-failures :
      (n k : ℕ) (c : Consumer W D I explain)
      → c.backoff ≡ min (backoff_min * 2 ^ k) backoff_max
      → ((run W D I explain (failures n) c).waits ≡ c.waits ++ paces n k)
        × ((run W D I explain (failures n) c).world ≡ c.world)
  unfolding run turn back_off
  run-failures zero k c h = (sym (append-nil c.waits), refl)
  run-failures (suc n) k c h =
      let (waits, world) =
        run-failures n (suc k) (back_off W D I explain c) (ap next_backoff h ∙ next_pace k) in
      (
        waits
            ∙ append_assoc c.waits (c.backoff ∷ []) (paces n (suc k))
            ∙ ap (λ b. c.waits ++ b ∷ paces n (suc k)) h,
        world,
      )

  -- While the fetches fail, the waits double from 100ms until they reach 5s, and stay there; and the
  -- world is left alone.
  pub run-failures-start :
      (n : ℕ) (w : World W D I explain)
      → ((run W D I explain (failures n) (start w)).waits ≡ paces n 0)
        × ((run W D I explain (failures n) (start w)).world ≡ w)
  run-failures-start n w = run-failures n 0 (start w) (omega arith)

  module _ (S : Storage D I) where
    -- Every message acknowledged has its rows in the database.
    abbrev pub AllDurable : World W D I explain → Type 0
    AllDurable w = All (IsDurable W D I explain S w.store) w.acked

    after_batch_world :
        (b : Bool) (w : World W D I explain) (c : Consumer W D I explain)
        → ((after_batch W D I explain b w c).world.acked ≡ w.acked)
          × ((after_batch W D I explain b w c).world.store ≡ w.store)
    unfolding back_off
    after_batch_world true w c = (refl, refl)
    after_batch_world false w c = (refl, refl)

    process_batch-AllDurable :
        (ms : List (Msg W)) (w : World W D I explain)
        → AllDurable w
        → AllDurable (process_batch W D I explain ms w).1
    process_batch-AllDurable ms w h =
        let w' = (process_batch W D I explain ms w).1 in
        let (well, failing, keep) = process_batch-IsDurable W D I explain S ms w in
        let old : All (IsDurable W D I explain S w'.store) w.acked =
          All-imp _ _
            (λ m d rs e. All-imp _ _ (λ (r : Row D) x. keep r.table r.values x) rs (d rs e)) w.acked
            h in
        elim (Bool-cases (process_batch W D I explain ms w).0) [
          | inl e ↦
              let (acks, new) = well e in
              subst (All (IsDurable W D I explain S w'.store)) (sym acks)
                (All-append _ w.acked ms old new)
          | inr e ↦ subst (All (IsDurable W D I explain S w'.store)) (sym (failing e).0) old
        ]

    turn-AllDurable :
        (f : Fetched W D I explain) (c : Consumer W D I explain)
        → AllDurable c.world
        → AllDurable (turn W D I explain f c).world
    unfolding turn back_off
    turn-AllDurable timed_out c h = h
    turn-AllDurable fetch_failed c h = h
    turn-AllDurable (fetched []) c h = h
    turn-AllDurable (fetched (m ∷ ms)) c h =
        let (well, w) = process_batch W D I explain (m ∷ ms) c.world in
        let (acks, store) = after_batch_world well w c in
        rw (acks, store) (process_batch-AllDurable (m ∷ ms) c.world h)

    -- However the fetches and the inserts of a run succeed and fail, at its end every message that was
    -- acknowledged in it has its rows in the database, if this held of those acknowledged before.
    pub run-AllDurable :
        (fs : List (Fetched W D I explain)) (c : Consumer W D I explain)
        → AllDurable c.world
        → AllDurable (run W D I explain fs c).world
    unfolding run
    run-AllDurable [] c h = h
    run-AllDurable (f ∷ fs) c h = run-AllDurable fs (turn W D I explain f c) (turn-AllDurable f c h)
