-- ===== src/Sink/Rows/Alignment.antt =====
-- Every row of internal/sink has a value for each column of its table.
use mathlib.Core.Path.{subst}
use vikasa_demo.Base.{
  ℕ, ◌+◌, ◌≡◌, refl, sym, ap, ◌∙◌, String, Option, none, some, List, [], ◌∷◌, ◌++◌, map, length,
  All, All-append, All-map, All-of, All-imp, All-get, ok, >>=-eq-ok, ok-injective, get, string_eq,
  arith,
}
use vikasa_demo.Events.Subject.{SubjectParts}
use vikasa_demo.Events.Envelope.{Envelope}
use vikasa_demo.Sink.Decoder.{Decoder}
use vikasa_demo.Sink.Handlers.{
  Value, Handler, prefix, decoded, decoding, class_rows, zone_rows, lane_row,
}
use vikasa_demo.Sink.Registry.{
  registry, signal_handlers, sensor_handlers, sign_handlers, heartbeat_handler,
}
use vikasa_demo.Sink.Rows.{
  Row, raw_row, typed_row, rows, known, subject_parts, columns_among, columns_for_table,
}

module _ (D : Decoder) where
  abbrev IsWide : ℕ → List (Value D) → Type 0
  IsWide n v = length v ≡ n

  abbrev IsAligned : Handler D → Type 0
  IsAligned h =
      (env : Envelope) (p : SubjectParts) (vs : List (List (Value D)))
      → h.extract env p ≡ ok vs
      → All (IsWide (length h.columns)) vs

  decoding-IsWide :
      (kind : String) (rows : D.Message → List (List (Value D))) (n : ℕ)
      → ((m : D.Message) → All (IsWide n) (rows m))
      → (env : Envelope) (p : SubjectParts) (vs : List (List (Value D)))
      → decoding D kind rows env p ≡ ok vs
      → All (IsWide (7 + n)) vs
  unfolding decoding
  decoding-IsWide kind rows n wide env p vs h =
      let (m, _, e) = >>=-eq-ok (decoded D env (D.unmarshal kind env.payload)) _ h in
      subst (All (IsWide (7 + n))) (ok-injective e)
        (All-map (λ row. prefix D env p ++ row) (IsWide (7 + n)) (rows m) (widen (rows m) (wide m)))
    where
      widen :
          (rs : List (List (Value D)))
          → All (IsWide n) rs
          → All (λ r. IsWide (7 + n) (prefix D env p ++ r)) rs
      widen [] h = tt
      widen (r ∷ rs) (w, h) = (omega (arith, w), widen rs h)

  class_rows-IsWide : (z : D.Message) (cs : List D.Message) → All (IsWide 3) (class_rows D z cs)
  class_rows-IsWide z [] = tt
  class_rows-IsWide z (c ∷ cs) = (refl, class_rows-IsWide z cs)

  zone_rows-IsWide : (zs : List D.Message) → All (IsWide 3) (zone_rows D zs)
  zone_rows-IsWide [] = tt
  zone_rows-IsWide (z ∷ zs) =
      All-append (IsWide 3) (class_rows D z (D.list_field "class_count" z)) (zone_rows D zs)
        (class_rows-IsWide z _) (zone_rows-IsWide zs)

  abbrev AreAligned : List (String × Handler D) → Type 0
  AreAligned = All (λ (k, h). IsAligned h)

  known-eq-ok :
      (ty : String) (o : Option (Handler D)) (h : Handler D) → known D ty o ≡ ok h → o ≡ some h
  known-eq-ok ty none h e = absurd (cc)
  known-eq-ok ty (some x) h e = cc

  raw_wide :
      (env : Envelope) (p : SubjectParts)
      → length (raw_row D env p).values ≡ length (columns_for_table D "events_raw")
  unfolding columns_for_table
  raw_wide env p = refl

  one-IsWide :
      (kind : String) (row : D.Message → List (Value D)) (n : ℕ)
      → ((m : D.Message) → length (row m) ≡ n)
      → (env : Envelope) (p : SubjectParts) (vs : List (List (Value D)))
      → decoding D kind (λ m. row m ∷ []) env p ≡ ok vs
      → All (IsWide (7 + n)) vs
  one-IsWide kind row n w = decoding-IsWide kind _ n (λ m. (w m, tt))

  lane_handler-IsWide :
      (kind : String) (lanes : D.Message → List D.Message) (env : Envelope) (p : SubjectParts)
      (vs : List (List (Value D)))
      → decoding D kind (λ m. map (lane_row D) (lanes m)) env p ≡ ok vs
      → All (IsWide 13) vs
  lane_handler-IsWide kind lanes = decoding-IsWide kind _ 6 (λ m.
      All-map (lane_row D) (IsWide 6) (lanes m)
        (All-of (λ l. IsWide 6 (lane_row D l)) (λ l. refl) (lanes m)))

  signal_handlers-AreAligned : AreAligned (signal_handlers D)
  signal_handlers-AreAligned = (
    one-IsWide _ _ 5 (λ m. refl),
    (
      one-IsWide _ _ 5 (λ m. refl),
      (
        one-IsWide _ _ 2 (λ m. refl),
        (
          one-IsWide _ _ 2 (λ m. refl),
          (
            one-IsWide _ _ 2 (λ m. refl),
            (one-IsWide _ _ 3 (λ m. refl), (one-IsWide _ _ 2 (λ m. refl), tt)),
          ),
        ),
      ),
    ),
  )

  sensor_handlers-AreAligned : AreAligned (sensor_handlers D)
  sensor_handlers-AreAligned = (
    lane_handler-IsWide _ _,
    (
      one-IsWide _ _ 1 (λ m. refl),
      (
        one-IsWide _ _ 3 (λ m. refl),
        (
          decoding-IsWide _ _ 3 (λ m. zone_rows-IsWide _),
          (one-IsWide _ _ 4 (λ m. refl), (one-IsWide _ _ 4 (λ m. refl), tt)),
        ),
      ),
    ),
  )

  sign_handlers-AreAligned : AreAligned (sign_handlers D)
  sign_handlers-AreAligned = (
    one-IsWide _ _ 3 (λ m. refl),
    (
      one-IsWide _ _ 3 (λ m. refl),
      (one-IsWide _ _ 3 (λ m. refl), (one-IsWide _ _ 4 (λ m. refl), tt)),
    ),
  )

  heartbeat_handler-IsAligned : IsAligned (heartbeat_handler D)
  heartbeat_handler-IsAligned env p vs h = subst (All (IsWide 7)) (ok-injective h) (refl, tt)

  registry-AreAligned : AreAligned (registry D)
  unfolding registry
  registry-AreAligned =
      All-append (λ (k, h). IsAligned h) (signal_handlers D)
        (sensor_handlers D
          ++ sign_handlers D
          ++ ("vikasa.gateway.heartbeat.v1", heartbeat_handler D) ∷ [])
        signal_handlers-AreAligned
        (All-append (λ (k, h). IsAligned h) (sensor_handlers D)
          (sign_handlers D ++ ("vikasa.gateway.heartbeat.v1", heartbeat_handler D) ∷ [])
          sensor_handlers-AreAligned
          (All-append (λ (k, h). IsAligned h) (sign_handlers D)
            (("vikasa.gateway.heartbeat.v1", heartbeat_handler D) ∷ []) sign_handlers-AreAligned
            (heartbeat_handler-IsAligned, tt)))

  -- A handler's columns are those of its table, whichever handler of the table is met first.
  registry_columns : All (λ (k, h). columns_for_table D h.table ≡ h.columns) (registry D)
  unfolding columns_for_table columns_among registry
  registry_columns = (
    refl,
    (
      refl,
      (
        refl,
        (
          refl,
          (
            refl,
            (
              refl,
              (
                refl,
                (
                  refl,
                  (
                    refl,
                    (refl, (refl, (refl, (refl, (refl, (refl, (refl, (refl, (refl, tt))))))))),
                  ),
                ),
              ),
            ),
          ),
        ),
      ),
    ),
  )

  -- Whatever the registry's handlers make of an envelope, each row has one value for each column that
  -- `Flush` names for its table; and the last row is that of `events_raw`.
  pub rows-aligned :
      (env : Envelope) (rs : List (Row D))
      → rows D env ≡ ok rs
      → All (λ (r : Row D). length r.values ≡ length (columns_for_table D r.table)) rs
        × ((typed : List (Row D)) × (p : SubjectParts) × (subject_parts env.subject ≡ ok p)
            × (rs ≡ typed ++ raw_row D env p ∷ []))
  unfolding rows
  rows-aligned env rs h =
      let (hd, k, h1) = >>=-eq-ok (known D env.ce_type (get env.ce_type (registry D))) _ h in
      let (p, s, h2) = >>=-eq-ok (subject_parts env.subject) _ h1 in
      let (vs, x, h3) = >>=-eq-ok (hd.extract env p) _ h2 in
      let found = known-eq-ok env.ce_type (get env.ce_type (registry D)) hd k in
      let cols =
        All-get (λ (w : Handler D). columns_for_table D w.table ≡ w.columns) env.ce_type hd
          (registry D) registry_columns found in
      let wide =
        All-get IsAligned env.ce_type hd (registry D) registry-AreAligned found env p vs x in
      (
        subst (All (λ (r : Row D). length r.values ≡ length (columns_for_table D r.table)))
            (ok-injective h3)
            (All-append _ (map (typed_row D hd.table) vs) (raw_row D env p ∷ [])
              (All-map (typed_row D hd.table) _ vs
                (All-imp _ _ (λ v w. w ∙ sym (ap length cols)) vs wide))
              (raw_wide env p, tt)),
        (map (typed_row D hd.table) vs, p, s, sym (ok-injective h3)),
      )
