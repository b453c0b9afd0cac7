-- ===== src/Sink/Shelf.antt =====
-- A concrete decoder and a database in memory, for the tests: a message is its payload, every getter
-- is constant, and the inserts into some tables fail.
use mathlib.Core.List.{Memᴰ}
use vikasa_demo.Base.{
  ℕ, ◌≡◌, ◌⊎◌, refl, Bool, true, false, String, none, some, List, [], ◌∷◌, pos, All, All-imp,
  str_eq, if◌then◌else◌, inl, inr,
}
use vikasa_demo.Sink.Decoder.{Decoder}
use vikasa_demo.Sink.Handlers.{Value}
use vikasa_demo.Sink.Rows.{Inserter}
use vikasa_demo.Sink.Batch.Durability.{Storage}

abbrev pub plain : Decoder
plain = record {
  Message = String;
  Float = ℕ;
  unmarshal = λ kind payload. if str_eq payload "" then none else some payload;
  text_field = λ name m. m;
  num_field = λ name m. 258;
  int_field = λ name m. pos 7;
  bool_field = λ name m. true;
  list_field = λ name m. m ∷ m ∷ [];
  parse_float = λ s. none;
  zero_float = 0;
  format_uint = λ n. "1";
  format_int = λ i. "7";
}

abbrev pub Kept : Type 0
Kept = List (String × List (List (Value plain)))

abbrev pub Held : Kept → String → List (Value plain) → Type 0
Held [] t v = ⊥
Held ((u, vs) ∷ kept) t v = ((u ≡ t) × Memᴰ v vs) ⊎ Held kept t v

-- One table takes no rows.
-- an insert that fails where `b` is true
abbrev pub put_up : Bool → String → List (List (Value plain)) → Kept → Kept × Bool
put_up true t vs kept = (kept, false)
put_up false t vs kept = ((t, vs) ∷ kept, true)

abbrev pub shelf : String → Inserter plain
shelf broken = record { State = Kept; insert = λ t cs vs kept. put_up (str_eq t broken) t vs kept }

pub All-member {ℓ} : {A : Type ℓ} (vs : List A) → All (λ v. Memᴰ v vs) vs
All-member [] = tt
All-member (v ∷ vs) = (Memᴰ.head refl, All-imp _ _ (λ w m. Memᴰ.tail m) vs (All-member vs))

pub shelf-keeps :
    (broken t : String) (vs : List (List (Value plain))) (kept : Kept) (u : String)
    (v : List (Value plain)) (b : Bool)
    → Held kept u v
    → Held (put_up b t vs kept).0 u v
shelf-keeps broken t vs kept u v true h = h
shelf-keeps broken t vs kept u v false h = inr h

pub shelf-lands :
    (broken t : String) (vs : List (List (Value plain))) (kept : Kept) (b : Bool)
    → (put_up b t vs kept).1 ≡ true
    → All (Held (put_up b t vs kept).0 t) vs
shelf-lands broken t vs kept true h = absurd (cc)
shelf-lands broken t vs kept false h = All-imp _ _ (λ v m. inl (refl, m)) vs (All-member vs)

abbrev pub shelf_storage : (broken : String) → Storage plain (shelf broken)
shelf_storage broken = record {
  Stored = Held;
  keeps = λ t cs vs kept u v h. shelf-keeps broken t vs kept u v (str_eq t broken) h;
  lands = λ t cs vs kept h. shelf-lands broken t vs kept (str_eq t broken) h;
}
