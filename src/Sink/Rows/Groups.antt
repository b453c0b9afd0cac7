-- ===== src/Sink/Rows/Groups.antt =====
-- The grouping of internal/sink/registry.go against a description of it: each table that occurs, in
-- the order of its first row, with all its rows in their order.
use vikasa_demo.Base.{
  ◌≡◌, refl, sym, ap, ◌∙◌, String, List, [], ◌∷◌, ◌++◌, append-nil, append_assoc, str_eq,
  if◌then◌else◌, Dict, get, put, get-put, string_eq, or_else, eq_iff, arith, Bool-cases, inl, inr,
}
use vikasa_demo.Sink.Decoder.{Decoder}
use vikasa_demo.Sink.Handlers.{Value}
use vikasa_demo.Sink.Rows.{Row, Inserter, is_some, columns_for_table, group, insert_groups, flush}

-- without a table
abbrev pub without : String → List String → List String
without t [] = []
without t (u ∷ us) = if str_eq t u then without t us else u ∷ without t us

module _ (D : Decoder) where
  unfoldable pub tables : List (Row D) → List String
  tables [] = []
  tables (r ∷ rs) = r.table ∷ without r.table (tables rs)

  unfoldable pub rows_of : String → List (Row D) → List (List (Value D))
  rows_of t [] = []
  rows_of t (r ∷ rs) = if str_eq r.table t then r.values ∷ rows_of t rs else rows_of t rs

  abbrev Grouped : Type 0
  Grouped = Dict String (List (List (Value D)))

  -- the tables that have no group yet
  abbrev fresh : Grouped → List String → List String
  fresh g [] = []
  fresh g (t ∷ ts) = if is_some (get t g) then fresh g ts else t ∷ fresh g ts

  fresh-put :
      (g : Grouped) (k : String) (v : List (List (Value D))) (ts : List String)
      → fresh (put k v g) ts ≡ fresh g (without k ts)
  fresh-put g k v [] = refl
  fresh-put g k v (t ∷ ts) = ground (arith, get-put k t v g, fresh-put g k v ts)

  group_order :
      (rs : List (Row D)) (order : List String) (g : Grouped)
      → (group D rs order g).0 ≡ order ++ fresh g (tables rs)
  unfolding group tables
  group_order [] order g = sym (append-nil order)
  group_order (r ∷ rs) order g = group_order rs _ _ ∙ elim (Bool-cases (is_some (get r.table g))) [
    | inl e ↦ rw (e, fresh-put g r.table) refl
    | inr e ↦ rw (e, fresh-put g r.table) (append_assoc order (r.table ∷ []) _)
  ]

  put_rows :
      (t : String) (r : Row D) (rest : List (List (Value D))) (g : Grouped)
      → or_else (get t (put r.table (or_else (get r.table g) [] ++ r.values ∷ []) g)) [] ++ rest
        ≡ or_else (get t g) [] ++ (if str_eq r.table t then r.values ∷ rest else rest)
  put_rows t r rest g = rw (get-put r.table t) (elim (Bool-cases (str_eq r.table t)) [
    | inl e ↦ rw e (
        append_assoc (or_else (get r.table g) []) (r.values ∷ []) rest
        ∙ ap (λ u. or_else (get u g) [] ++ r.values ∷ rest) ((eq_iff r.table t).0 e))
    | inr e ↦ rw e
  ])

  group_rows :
      (t : String) (rs : List (Row D)) (order : List String) (g : Grouped)
      → or_else (get t (group D rs order g).1) [] ≡ or_else (get t g) [] ++ rows_of t rs
  unfolding group rows_of
  group_rows t [] order g = sym (append-nil _)
  group_rows t (r ∷ rs) order g = group_rows t rs _ _ ∙ put_rows t r (rows_of t rs) g

  fresh-nil : (ts : List String) → fresh [] ts ≡ ts
  unfolding get
  fresh-nil [] = refl
  fresh-nil (t ∷ ts) = ap (λ us. t ∷ us) (fresh-nil ts)

  module _ (I : Inserter D) where
    -- One insert for each of the tables listed, of all its rows; the tables that failed.
    unfoldable pub insert_each : List String → List (Row D) → I.State → I.State × List String
    insert_each [] rs s = (s, [])
    insert_each (t ∷ ts) rs s =
        let (s1, done) = I.insert t (columns_for_table D t) (rows_of t rs) s in
        let (s2, failed) = insert_each ts rs s1 in (s2, if done then failed else t ∷ failed)

    insert_groups-each :
        (ts : List String) (rs : List (Row D)) (g : Grouped) (s : I.State)
        → ((t : String) → or_else (get t g) [] ≡ rows_of t rs)
        → insert_groups D I ts g s ≡ insert_each ts rs s
    unfolding insert_groups insert_each
    insert_groups-each [] rs g s h = refl
    insert_groups-each (t ∷ ts) rs g s h = rw (h t) (
        ap
          (λ (x : I.State × List String).
            let done = (I.insert t (columns_for_table D t) (rows_of t rs) s).1 in
            (x.0, if done then x.1 else t ∷ x.1))
          (insert_groups-each ts rs g _ h))

    -- `Flush` makes exactly one insert for each table that occurs among the rows, in the order of
    -- their first rows, with all the rows of the table in their order, whatever inserts fail; and its
    -- error names exactly the tables whose insert failed.
    pub flush-each :
        (rs : List (Row D)) (s : I.State) → flush D I rs s ≡ insert_each (tables rs) rs s
    unfolding flush get
    flush-each rs s =
        rw (group_order rs [] [], fresh-nil (tables rs))
          (insert_groups-each (tables rs) rs _ s (λ t. group_rows t rs [] []))
