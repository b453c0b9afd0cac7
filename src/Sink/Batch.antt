-- ===== src/Sink/Batch.antt =====
-- internal/sink/consumer.go: one fetched batch, from its messages to the acknowledgements. The world
-- is the database, the messages acknowledged (or tried to be: a failure is only logged) and the calls
-- of the metrics, without the time that a flush took.
pub mod Durability
pub mod Acks
use vikasa_demo.Base.{
  ℕ, ◌+◌, String, Option, none, some, List, [], ◌∷◌, ◌++◌, map, Bool, true, false, Result, ok, err,
  if◌then◌else◌, Dict, get, put, string_eq, or_else, length,
}
use vikasa_demo.Events.Subject.{EventError}
use vikasa_demo.Events.Wire.{Wire}
use vikasa_demo.Events.Envelope.{Envelope, Msg, from_msg}
use vikasa_demo.Sink.Decoder.{Decoder}
use vikasa_demo.Sink.Handlers.{SinkError, Value, text}
use vikasa_demo.Sink.Rows.{Row, rows, Inserter, flush, is_some}

abbrev pub dead_letter_table : String
dead_letter_table = "events_dead_letter"

abbrev pub dead_letter_columns : List String
dead_letter_columns = "subject" ∷ "ce_id" ∷ "ce_type" ∷ "error" ∷ "payload" ∷ []

pub data Cause : Type 0 where
  bad_envelope : EventError → Cause
  bad_rows : SinkError → Cause

abbrev pub is_none {ℓ} : {A : Type ℓ} → List A → Bool
is_none [] = true
is_none (_ ∷ _) = false

pub record BadEnvelope : Type 0 where
  pub subject : String
  pub ce_id : String
  pub ce_type : String
  pub cause : Cause
  pub payload : String

pub data Metric : Type 0 where
  flush_duration flush_error : Metric
  event_inserted : (table : String) (n : ℕ) → Metric
  dead_letter : (n : ℕ) → Metric

module _ (W : Wire) (D : Decoder) (I : Inserter D) (explain : Cause → String) where
  abbrev pub converted :
      Envelope → Result SinkError (List (Row D)) → Result BadEnvelope (List (Row D))
  converted env (ok rs) = ok rs
  converted env (err e) = err (record {
    subject = env.subject;
    ce_id = env.id;
    ce_type = env.ce_type;
    cause = bad_rows e;
    payload = env.payload;
  })

  abbrev pub unwrapped : Msg W → Result EventError Envelope → Result BadEnvelope (List (Row D))
  unwrapped m (ok env) = converted env (rows D env)
  unwrapped m (err e) = err (record {
    subject = m.subject;
    ce_id = "";
    ce_type = "";
    cause = bad_envelope e;
    payload = m.payload;
  })

  -- the rows of a message, or what is wrong with it
  unfoldable pub convert : Msg W → Result BadEnvelope (List (Row D))
  convert m = unwrapped m (from_msg W m)

  abbrev pub sort_out :
      Result BadEnvelope (List (Row D))
      → List (Row D) × List BadEnvelope
      → List (Row D) × List BadEnvelope
  sort_out (ok rs) (good, bad) = (rs ++ good, bad)
  sort_out (err b) (good, bad) = (good, b ∷ bad)

  -- The loop over the messages: the rows and the bad envelopes, both in the order of the messages.
  unfoldable pub convert_all : List (Msg W) → List (Row D) × List BadEnvelope
  convert_all [] = ([], [])
  convert_all (m ∷ ms) = sort_out (convert m) (convert_all ms)

  pub record World : Type 0 where
    pub store : I.State
    pub acked : List (Msg W)
    pub metrics : List Metric

  unfoldable pub dead_letter_row : BadEnvelope → I.State → I.State
  dead_letter_row b s =
      (I.insert dead_letter_table dead_letter_columns
        ((text b.subject
            ∷ text b.ce_id
            ∷ text b.ce_type
            ∷ text (explain b.cause)
            ∷ text b.payload
            ∷ [])
          ∷ [])
        s).0

  unfoldable pub dead_letter_rows : List BadEnvelope → I.State → I.State
  unfolding dead_letter_row
  dead_letter_rows [] s = s
  dead_letter_rows (b ∷ bs) s = dead_letter_rows bs (dead_letter_row b s)

  unfoldable pub count_rows :
      List (Row D) → List String → Dict String ℕ → List String × Dict String ℕ
  count_rows [] order counts = (order, counts)
  count_rows (r ∷ rs) order counts =
      count_rows rs (if is_some (get r.table counts) then order else order ++ r.table ∷ [])
        (put r.table (or_else (get r.table counts) 0 + 1) counts)

  unfoldable pub table_counts : List (Row D) → List (String × ℕ)
  table_counts rs =
      let (order, counts) = count_rows rs [] [] in map (λ t. (t, or_else (get t counts) 0)) order

  -- what follows a flush that succeeded, or that there was no need of
  abbrev pub conclude : List BadEnvelope → List (Msg W) → World → World
  conclude [] ms w = record w { acked = w.acked ++ ms }
  conclude (b ∷ bs) ms w = record w {
    store = dead_letter_rows (b ∷ bs) w.store;
    acked = w.acked ++ ms;
    metrics = w.metrics ++ dead_letter (length (b ∷ bs)) ∷ [];
  }

  -- The flush of the good rows: whether it was well, and the world after it.
  abbrev pub flushed : List (Row D) → World → Bool × World
  flushed [] w = (true, w)
  flushed (r ∷ rs) w =
      let (s, failed) = flush D I (r ∷ rs) w.store in
      if is_none failed
      then (
        true,
        record w {
          store = s;
          metrics =
              w.metrics
              ++ flush_duration ∷ map (λ (t, n). event_inserted t n) (table_counts (r ∷ rs));
        },
      )
      else (false, record w { store = s; metrics = w.metrics ++ flush_duration ∷ [] })

  -- `true` for a batch that was handled, `false` for the error of the flush.
  unfoldable pub process_batch : List (Msg W) → World → Bool × World
  process_batch ms w =
      let (good, bad) = convert_all ms in
      let (well, w') = flushed good w in if well then (true, conclude bad ms w') else (false, w')
