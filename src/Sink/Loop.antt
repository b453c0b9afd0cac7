-- ===== src/Sink/Loop.antt =====
-- internal/sink/consumer.go: the loop that fetches batches. A run is the list of what the fetches
-- gave, up to the turn in which the context is cancelled; the waits are listed in their order.
pub mod Backoff
use vikasa_demo.Base.{ℕ, ◌*◌, String, List, [], ◌∷◌, ◌++◌, Bool, true, false, ltb, if◌then◌else◌}
use vikasa_demo.Events.Wire.{Wire}
use vikasa_demo.Events.Envelope.{Msg}
use vikasa_demo.Sink.Decoder.{Decoder}
use vikasa_demo.Sink.Rows.{Inserter}
use vikasa_demo.Sink.Batch.{Cause, World, flush_error, process_batch}

-- in nanoseconds
abbrev pub backoff_min : ℕ
backoff_min = 100 * 1_000_000

abbrev pub backoff_max : ℕ
backoff_max = 5 * 1_000_000_000

unfoldable pub next_backoff : ℕ → ℕ
next_backoff b = if ltb backoff_max (b * 2) then backoff_max else b * 2

module _ (W : Wire) (D : Decoder) (I : Inserter D) (explain : Cause → String) where
  pub data Fetched : Type 0 where
    timed_out fetch_failed : Fetched
    fetched : List (Msg W) → Fetched

  pub record Consumer : Type 0 where
    pub world : World W D I explain
    pub backoff : ℕ
    pub waits : List ℕ

  unfoldable pub back_off : Consumer → Consumer
  unfolding next_backoff
  back_off c = record c { waits = c.waits ++ c.backoff ∷ []; backoff = next_backoff c.backoff }

  abbrev pub after_batch : Bool → World W D I explain → Consumer → Consumer
  after_batch true w c = record c { world = w; backoff = backoff_min }
  after_batch false w c =
      back_off (record c { world = record w { metrics = w.metrics ++ flush_error ∷ [] } })

  unfoldable pub turn : Fetched → Consumer → Consumer
  turn timed_out c = c
  turn fetch_failed c = back_off c
  turn (fetched []) c = c
  turn (fetched (m ∷ ms)) c =
      let (well, w) = process_batch W D I explain (m ∷ ms) c.world in after_batch well w c

  unfoldable pub run : List Fetched → Consumer → Consumer
  unfolding turn
  run [] c = c
  run (f ∷ fs) c = run fs (turn f c)
