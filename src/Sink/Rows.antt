-- ===== src/Sink/Rows.antt =====
-- internal/sink/registry.go: from an envelope to rows, and from rows to one insert for each table.
pub mod Groups
pub mod Alignment
use vikasa_demo.Base.{
  String, Option, none, some, List, [], ◌∷◌, ◌++◌, map, Bool, true, false, Result, ok, err, ◌>>=◌,
  str_eq, if◌then◌else◌, Dict, get, put, string_eq, or_else,
}
use vikasa_demo.Events.Subject.{EventError, SubjectParts, parse_subject, parse_share_subject}
use vikasa_demo.Events.Envelope.{Envelope}
use vikasa_demo.Sink.Decoder.{Decoder}
use vikasa_demo.Sink.Handlers.{SinkError, unknown_type, bad_subject, Value, text, time, Handler}
use vikasa_demo.Sink.Registry.{registry}

abbrev pub events_raw_columns : List String
events_raw_columns =
    "ce_id" ∷ "ce_time" ∷ "dot" ∷ "district" ∷ "cabinet_id" ∷ "device_id" ∷ "service" ∷ "event" ∷ []

-- The internal form of a subject first, then the one of the federation.
abbrev pub first_ok :
    Result EventError SubjectParts → Result EventError SubjectParts → Result SinkError SubjectParts
first_ok (ok p) _ = ok p
first_ok (err _) (ok p) = ok p
first_ok (err _) (err e) = err (bad_subject e)

unfoldable pub subject_parts : String → Result SinkError SubjectParts
subject_parts s = first_ok (parse_subject s) (parse_share_subject s)

abbrev pub is_some {ℓ} : {A : Type ℓ} → Option A → Bool
is_some none = false
is_some (some _) = true

module _ (D : Decoder) where
  pub record Row : Type 0 where
    pub table : String
    pub values : List (Value D)

  abbrev pub known : String → Option (Handler D) → Result SinkError (Handler D)
  known ce_type none = err (unknown_type ce_type)
  known ce_type (some h) = ok h

  abbrev pub raw_row : Envelope → SubjectParts → Row
  raw_row env p = record {
    table = "events_raw";
    values =
        text env.id
        ∷ time env.time
        ∷ text p.dot
        ∷ text p.district
        ∷ text p.cabinet
        ∷ text p.controller
        ∷ text p.service
        ∷ text p.event
        ∷ [];
  }

  abbrev pub typed_row : String → List (Value D) → Row
  typed_row table values = record { table = table; values = values }

  unfoldable pub rows : Envelope → Result SinkError (List Row)
  rows env = do
    h ← known env.ce_type (get env.ce_type (registry D))
    p ← subject_parts env.subject
    typed ← h.extract env p
    ok (map (typed_row h.table) typed ++ raw_row env p ∷ [])

  -- The loop over the registry, in some order.
  unfoldable pub columns_among : String → Dict String (Handler D) → List String
  columns_among table [] = []
  columns_among table ((k, h) ∷ rest) =
      if str_eq h.table table then h.columns else columns_among table rest

  unfoldable pub columns_for_table : String → List String
  columns_for_table table =
      if str_eq table "events_raw" then events_raw_columns else columns_among table (registry D)

  -- The tables in the order in which they are first seen, and the rows of each.
  unfoldable pub group :
      List Row
      → List String
      → Dict String (List (List (Value D)))
      → List String × Dict String (List (List (Value D)))
  group [] order grouped = (order, grouped)
  group (r ∷ rs) order grouped =
      group rs (if is_some (get r.table grouped) then order else order ++ r.table ∷ [])
        (put r.table (or_else (get r.table grouped) [] ++ r.values ∷ []) grouped)

  -- The database: an insert changes it and may fail.
  pub record Inserter : Type 1 where
    pub State : Type 0
    pub insert : String → List String → List (List (Value D)) → State → State × Bool

  module _ (I : Inserter) where
    -- The tables whose insert failed; a failure does not stop the loop.
    unfoldable pub insert_groups :
        List String → Dict String (List (List (Value D))) → I.State → I.State × List String
    insert_groups [] grouped s = (s, [])
    insert_groups (t ∷ ts) grouped s =
        let (s1, done) = I.insert t (columns_for_table t) (or_else (get t grouped) []) s in
        let (s2, failed) = insert_groups ts grouped s1 in (s2, if done then failed else t ∷ failed)

    -- The error of Flush is the list of the tables that failed, empty for none.
    unfoldable pub flush : List Row → I.State → I.State × List String
    flush rs s = let (order, grouped) = group rs [] [] in insert_groups order grouped s
