-- ===== src/Fleet/Ports/Tables.antt =====
-- Tables of ports, filled entry by entry as the tour (internal/tour/fleet.go) fills its own.
use vikasa_demo.Base.{
  ℕ, ◌≡◌, refl, sym, ap, ◌∙◌, String, false, List, [], ◌∷◌, ◌++◌, append_assoc, append-nil, All,
  All-of_append, str_eq, Dict, put, string_eq,
}

abbrev pub Table : Type 0
Table = Dict String ℕ

-- the entries put one after the other
abbrev pub put_all : List (String × ℕ) → Table → Table
put_all [] m = m
put_all ((k, v) ∷ l) m = put_all l (put k v m)

pub put_all-append :
    (xs ys : List (String × ℕ)) (m : Table) → put_all (xs ++ ys) m ≡ put_all ys (put_all xs m)
put_all-append [] ys m = refl
put_all-append ((k, v) ∷ xs) ys m = put_all-append xs ys (put k v m)

-- No entry has the key.
abbrev pub IsFresh : String → Table → Type 0
IsFresh k = All (λ (e : String × ℕ). str_eq k e.0 ≡ false)

abbrev pub AreDistinct : Table → Type 0
AreDistinct [] = Unit
AreDistinct (e ∷ l) = IsFresh e.0 l × AreDistinct l

pub put_last :
    (k : String) (v : ℕ) (m l : Table)
    → AreDistinct (m ++ (k, v) ∷ l)
    → put k v m ≡ m ++ (k, v) ∷ []
unfolding put
put_last k v [] l h = refl
put_last k v ((j, w) ∷ m) l h =
    let (_, g) = All-of_append (λ (e : String × ℕ). str_eq j e.0 ≡ false) m ((k, v) ∷ l) h.0 in
    rw g.0 (ap (λ x. (j, w) ∷ x) (put_last k v m l h.1))

-- Entries with keys of their own stay in order.
pub put_all_distinct : (l m : Table) → AreDistinct (m ++ l) → put_all l m ≡ m ++ l
put_all_distinct [] m h = sym (append-nil m)
put_all_distinct ((k, v) ∷ l) m h =
    let e = append_assoc m ((k, v) ∷ []) l in
    ap (λ x. put_all l x) (put_last k v m l h) ∙ put_all_distinct l (m ++ (k, v) ∷ []) (rw e h) ∙ e
