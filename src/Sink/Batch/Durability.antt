-- ===== src/Sink/Batch/Durability.antt =====
-- A message that internal/sink/consumer.go acknowledges has its rows in the database.
use text.Mathlib.TextPositions.{eq_refl}
use vikasa_demo.Base.{
  ◌≡◌, sym, ap, ◌∙◌, String, List, [], ◌∷◌, Bool, true, All, All-imp, arith, str_eq, eq_iff,
  Bool-cases, inl, inr, if◌then◌else◌,
}
use mathlib.Core.Path.{subst}
use vikasa_demo.Sink.Decoder.{Decoder}
use vikasa_demo.Sink.Handlers.{Value}
use vikasa_demo.Sink.Rows.{Row, Inserter, columns_for_table, flush}
use vikasa_demo.Sink.Rows.Groups.{without, tables, rows_of, insert_each, flush-each}

-- What the sink relies on of the database: an insert that succeeds stores its rows, and no insert,
-- failing or not, loses a row that is stored.
pub record Storage (D : Decoder) (I : Inserter D) : Type 1 where
  pub Stored : I.State → String → List (Value D) → Type 0
  pub keeps :
      (t : String) (cs : List String) (vs : List (List (Value D))) (s : I.State) (u : String)
      (v : List (Value D))
      → Stored s u v
      → Stored (I.insert t cs vs s).0 u v
  pub lands :
      (t : String) (cs : List String) (vs : List (List (Value D))) (s : I.State)
      → (I.insert t cs vs s).1 ≡ true
      → All (Stored (I.insert t cs vs s).0 t) vs

module _ (D : Decoder) (Q : String → List (Value D) → Type 0) where
  rest_rows :
      (r : Row D) (rs : List (Row D)) (t : String)
      → All (Q t) (rows_of D t (r ∷ rs))
      → All (Q t) (rows_of D t rs)
  unfolding rows_of
  rest_rows r rs t h = elim (Bool-cases (str_eq r.table t)) [
    | inl e ↦ (rw e at h).1
    | inr e ↦ rw e at h
  ]

  other_tables :
      (r : Row D) (rs : List (Row D)) (ts : List String)
      → All (Q r.table) (rows_of D r.table rs)
      → All (λ t. All (Q t) (rows_of D t (r ∷ rs))) (without r.table ts)
      → All (λ t. All (Q t) (rows_of D t rs)) ts
  other_tables r rs [] own h = tt
  other_tables r rs (t ∷ ts) own h = elim (Bool-cases (str_eq r.table t)) [
    | inl e ↦ (
      subst (λ u. All (Q u) (rows_of D u rs)) ((eq_iff r.table t).0 e) own,
      other_tables r rs ts own (rw e at h),
    )
    | inr e ↦
        let (own_t, more) : All (Q t) (rows_of D t (r ∷ rs))
            × All (λ t. All (Q t) (rows_of D t (r ∷ rs))) (without r.table ts) =
          rw e at h in
        (rest_rows r rs t own_t, other_tables r rs ts own more)
  ]

  -- What holds of the rows of each table holds of all rows.
  every_row :
      (rs : List (Row D))
      → All (λ t. All (Q t) (rows_of D t rs)) (tables D rs)
      → All (λ (r : Row D). Q r.table r.values) rs
  unfolding tables rows_of
  every_row [] h = tt
  every_row (r ∷ rs) (own, others) =
      let own' : All (Q r.table) (r.values ∷ rows_of D r.table rs) = rw (eq_refl r.table) at own in
      (own'.0, every_row rs (other_tables r rs (tables D rs) own'.1 others))

module _ (D : Decoder) (I : Inserter D) (S : Storage D I) where
  open S use {Stored, keeps, lands}

  insert_each-keeps :
      (ts : List String) (rs : List (Row D)) (s : I.State) (u : String) (v : List (Value D))
      → Stored s u v
      → Stored (insert_each D I ts rs s).0 u v
  unfolding insert_each
  insert_each-keeps [] rs s u v h = h
  insert_each-keeps (t ∷ ts) rs s u v h =
      insert_each-keeps ts rs _ u v (keeps t _ (rows_of D t rs) s u v h)

  insert_each-lands :
      (ts : List String) (rs : List (Row D)) (s : I.State)
      → (insert_each D I ts rs s).1 ≡ []
      → All (λ t. All (Stored (insert_each D I ts rs s).0 t) (rows_of D t rs)) ts
  unfolding insert_each
  insert_each-lands [] rs s h = tt
  insert_each-lands (t ∷ ts) rs s h =
      let (done, rest) = both _ _ h in
      (
        All-imp _ _ (λ v. insert_each-keeps ts rs _ t v) (rows_of D t rs)
            (lands t (columns_for_table D t) (rows_of D t rs) s done),
        insert_each-lands ts rs _ rest,
      )
    where
      both :
          (done : Bool) (failed : List String)
          → (if done then failed else t ∷ failed) ≡ []
          → (done ≡ true) × (failed ≡ [])
      both done failed h = ground arith

  pub flush-lands :
      (rs : List (Row D)) (s : I.State)
      → (flush D I rs s).1 ≡ []
      → All (λ (r : Row D). Stored (flush D I rs s).0 r.table r.values) rs
  flush-lands rs s h =
      let e = flush-each D I rs s in
      subst (λ (x : I.State). All (λ (r : Row D). Stored x r.table r.values) rs)
        (ap (λ (x : I.State × List String). x.0) (sym e))
        (every_row D (Stored (insert_each D I (tables D rs) rs s).0) rs (
          insert_each-lands (tables D rs) rs s
            (sym (ap (λ (x : I.State × List String). x.1) e) ∙ h)))

  pub flush-keeps :
      (rs : List (Row D)) (s : I.State) (u : String) (v : List (Value D))
      → Stored s u v
      → Stored (flush D I rs s).0 u v
  flush-keeps rs s u v h = rw (flush-each D I rs s) (insert_each-keeps (tables D rs) rs s u v h)
