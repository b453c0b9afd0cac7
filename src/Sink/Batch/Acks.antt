-- ===== src/Sink/Batch/Acks.antt =====
-- What a batch of internal/sink/consumer.go acknowledges, when its flush works and when it fails.
use mathlib.Core.Path.{subst}
use vikasa_demo.Base.{
  ◌≡◌, refl, sym, ap, ◌∙◌, String, List, [], ◌∷◌, ◌++◌, Bool, true, false, All, All-of_append,
  All-imp, Result, ok, err, ok-injective, Bool-cases, inl, inr, if-cases,
}
use vikasa_demo.Events.Wire.{Wire}
use vikasa_demo.Events.Envelope.{Msg}
use vikasa_demo.Sink.Decoder.{Decoder}
use vikasa_demo.Sink.Handlers.{Value}
use vikasa_demo.Sink.Rows.{Row, Inserter, flush, group, insert_groups}
use vikasa_demo.Sink.Batch.{
  Cause, BadEnvelope, World, convert, convert_all, sort_out, dead_letter_rows, conclude, flushed,
  process_batch, is_none, dead_letter_table, dead_letter_columns,
}
use vikasa_demo.Sink.Batch.Durability.{Storage, flush-lands, flush-keeps}

is_none-nil {ℓ} : {A : Type ℓ} (xs : List A) → is_none xs ≡ true → xs ≡ []
is_none-nil [] h = refl
is_none-nil (x ∷ xs) h = absurd (cc)

module _ (W : Wire) (D : Decoder) (I : Inserter D) (explain : Cause → String) where
  -- the rows of each message, out of the rows of the batch
  take_rows :
      (Q : Row D → Type 0) (m : Msg W) (c : Result BadEnvelope (List (Row D)))
      (rest : List (Row D) × List BadEnvelope)
      → All Q (sort_out W D I explain c rest).0
      → ((rs : List (Row D)) → c ≡ ok rs → All Q rs) × All Q rest.0
  take_rows Q m (ok rs) rest h =
      let (mine, others) = All-of_append Q rs rest.0 h in
      ((λ xs f. subst (All Q) (ok-injective f) mine), others)
  take_rows Q m (err b) rest h = ((λ xs f. absurd (cc)), h)

  good_rows :
      (Q : Row D → Type 0) (ms : List (Msg W))
      → All Q (convert_all W D I explain ms).0
      → All (λ m. (rs : List (Row D)) → convert W D I explain m ≡ ok rs → All Q rs) ms
  unfolding convert_all
  good_rows Q [] h = tt
  good_rows Q (m ∷ ms) h =
      let (mine, others) =
        take_rows Q m (convert W D I explain m) (convert_all W D I explain ms) h in
      (mine, good_rows Q ms others)

  module _ (S : Storage D I) where
    open S use {Stored, keeps}

    -- The rows of a message are in the database.
    abbrev pub IsDurable : I.State → Msg W → Type 0
    IsDurable s m =
        (rs : List (Row D))
        → convert W D I explain m ≡ ok rs
        → All (λ (r : Row D). Stored s r.table r.values) rs

    dead_letter_rows-keeps :
        (bs : List BadEnvelope) (s : I.State) (u : String) (v : List (Value D))
        → Stored s u v
        → Stored (dead_letter_rows W D I explain bs s) u v
    unfolding dead_letter_rows
    dead_letter_rows-keeps [] s u v h = h
    dead_letter_rows-keeps (b ∷ bs) s u v h =
        dead_letter_rows-keeps bs _ u v (keeps dead_letter_table dead_letter_columns _ s u v h)

    -- What a flush leaves: its answer and the world after it.
    abbrev Flushed : List (Row D) → World W D I explain → Bool × World W D I explain → Type 0
    Flushed rs w r =
        (r.1.acked ≡ w.acked)
        × ((u : String) (v : List (Value D)) → Stored w.store u v → Stored r.1.store u v)
        × (r.0 ≡ true → All (λ (x : Row D). Stored r.1.store x.table x.values) rs)
        × (r.0 ≡ false → r.1.store ≡ (flush D I rs w.store).0)

    flushed-Flushed :
        (rs : List (Row D)) (w : World W D I explain) → Flushed rs w (flushed W D I explain rs w)
    flushed-Flushed [] w = (refl, (λ u v h. h), (λ _. tt), (λ f. absurd (cc)))
    flushed-Flushed (x ∷ rs) w =
        let keep = λ (u : String) (v : List (Value D)) (h : Stored w.store u v).
          flush-keeps D I S (x ∷ rs) w.store u v h in
        if-cases (Flushed (x ∷ rs) w) (is_none (flush D I (x ∷ rs) w.store).1) _ _
          (λ e. (
            refl,
            keep,
            (λ _. flush-lands D I S (x ∷ rs) w.store (is_none-nil _ e)),
            (λ f. absurd (cc)),
          ))
          (λ e. (refl, keep, (λ f. absurd (cc)), (λ _. refl)))

    conclude_lem :
        (bs : List BadEnvelope) (ms : List (Msg W)) (w : World W D I explain)
        → ((conclude W D I explain bs ms w).acked ≡ w.acked ++ ms)
          × ((u : String) (v : List (Value D))
              → Stored w.store u v
              → Stored (conclude W D I explain bs ms w).store u v)
    conclude_lem [] ms w = (refl, (λ u v h. h))
    conclude_lem (b ∷ bs) ms w = (refl, (λ u v h. dead_letter_rows-keeps (b ∷ bs) w.store u v h))

    -- A batch that is handled acknowledges all its messages, after which the rows of each message that
    -- has rows are in the database. A batch whose flush fails acknowledges none of them, and its bad
    -- messages are not dead-lettered: the database is as the flush left it. Either way no row that was
    -- in the database is lost.
    pub process_batch-IsDurable :
        (ms : List (Msg W)) (w : World W D I explain)
        → let (well, w') = process_batch W D I explain ms w in
          (well ≡ true → (w'.acked ≡ w.acked ++ ms) × All (IsDurable w'.store) ms)
          × (well ≡ false
              → (w'.acked ≡ w.acked)
                × (w'.store ≡ (flush D I (convert_all W D I explain ms).0 w.store).0))
          × ((u : String) (v : List (Value D)) → Stored w.store u v → Stored w'.store u v)
    unfolding process_batch
    process_batch-IsDurable ms w =
        let good = (convert_all W D I explain ms).0 in
        let bad = (convert_all W D I explain ms).1 in
        let r = flushed W D I explain good w in
        let (same, keep, land, left) = flushed-Flushed good w in
        let (acks, keep') = conclude_lem bad ms r.1 in
        if-cases
          (λ (x : Bool × World W D I explain).
            (x.0 ≡ true → (x.1.acked ≡ w.acked ++ ms) × All (IsDurable x.1.store) ms)
            × (x.0 ≡ false → (x.1.acked ≡ w.acked) × (x.1.store ≡ (flush D I good w.store).0))
            × ((u : String) (v : List (Value D)) → Stored w.store u v → Stored x.1.store u v))
          r.0 (true, conclude W D I explain bad ms r.1) (false, r.1)
          (λ e. (
            (λ _. (
              acks ∙ ap (λ x. x ++ ms) same,
              good_rows _ ms
                  (All-imp _ _ (λ (y : Row D) h. keep' y.table y.values h) good (land e)),
            )),
            (λ f. absurd (cc)),
            (λ u v h. keep' u v (keep u v h)),
          ))
          (λ e. ((λ f. absurd (cc)), (λ _. (same, left e)), keep))

  flush_nil : (s : I.State) → is_none (flush D I [] s).1 ≡ true
  unfolding flush group insert_groups
  flush_nil s = refl

  -- A batch is handled exactly when the flush of its rows fails for no table; what its dead letters
  -- meet does not matter.
  pub process_batch_handled :
      (ms : List (Msg W)) (w : World W D I explain)
      → (process_batch W D I explain ms w).0
        ≡ is_none (flush D I (convert_all W D I explain ms).0 w.store).1
  unfolding process_batch
  process_batch_handled ms w =
      let (good, bad) = convert_all W D I explain ms in
      let r = flushed W D I explain good w in
      if-cases (λ (x : Bool × World W D I explain). x.0 ≡ r.0) r.0
        (true, conclude W D I explain bad ms r.1) (false, r.1) (λ e. sym e) (λ e. sym e)
      ∙ flushed_handled good
    where
      flushed_handled :
          (good : List (Row D))
          → (flushed W D I explain good w).0 ≡ is_none (flush D I good w.store).1
      flushed_handled [] = sym (flush_nil w.store)
      flushed_handled (x ∷ rs) = elim (Bool-cases (is_none (flush D I (x ∷ rs) w.store).1)) [
        | inl e ↦ rw e
        | inr e ↦ rw e
      ]
