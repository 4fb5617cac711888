-- ===== src/Field/Sent.antt =====
-- A table of typed values, as the server sends it and the access of src/resultset.h reads it.
use qbm_pgsql.Prelude.{
  ℕ, zero, suc, ◌<◌, ◌≡◌, refl, Bool, true, false, Option, none, some, List, [], ◌∷◌, ◌==◌,
  if◌then◌else◌, length, get_elem?, map, Result, ok, throws, undefined, value_is_null, ◌>>=◌, arith,
  Bool-cases, inl, inr,
}
use qbm_pgsql.Wire.{Host}
use qbm_pgsql.Message.{FieldDescription}
use qbm_pgsql.Row.Columns.{Column, values}
use qbm_pgsql.Unserializer.Laws.{read_string_text}
use qbm_pgsql.Convert.{ValueType, Value, type_of, from_text, from_binary, to_text}
use qbm_pgsql.Convert.Wire.{
  IsValue, binary_form, from_binary-binary_form, from_text-to_text, to_text-nonzero,
}
use qbm_pgsql.Resultset.{ResultImpl, is_null, at, field}
use qbm_pgsql.Resultset.Access.{cell, results, cell-results}
use qbm_pgsql.Field.{convert, as_value}

-- A value in the format of its field, and a row of them.
abbrev pub form : ℕ → Value → List ℕ
form format_code v = if format_code == 1 then binary_form v else to_text v

abbrev pub sent_column : ℕ → Option Value → Column
sent_column format_code none = none
sent_column format_code (some v) = some (form format_code v)

unfoldable pub sent_row : List FieldDescription → List (Option Value) → List Column
sent_row [] vs = []
sent_row (f ∷ fs) [] = []
sent_row (f ∷ fs) (v ∷ vs) = sent_column f.format_code v ∷ sent_row fs vs

-- The result that such rows make.
abbrev pub sent : List FieldDescription → List (List (Option Value)) → ResultImpl
sent fields table = results fields (map (sent_row fields) table)

get_elem?-sent_row :
    (fs : List FieldDescription) (vs : List (Option Value)) (c : ℕ) (f : FieldDescription)
    (o : Option Value)
    → get_elem? fs c ≡ some f
    → get_elem? vs c ≡ some o
    → get_elem? (sent_row fs vs) c ≡ some (sent_column f.format_code o)
unfolding sent_row
get_elem?-sent_row [] vs c f o p q = let absurdity : ⊥ = cc in absurd absurdity
get_elem?-sent_row (g ∷ fs) [] c f o p q = let absurdity : ⊥ = cc in absurd absurdity
get_elem?-sent_row (g ∷ fs) (v ∷ vs) zero f o p q = ground arith
get_elem?-sent_row (g ∷ fs) (v ∷ vs) (suc c) f o p q = get_elem?-sent_row fs vs c f o p q

pub get_elem?-map {ℓ κ} :
    {A : Type ℓ} {B : Type κ} (g : A → B) (xs : List A) (i : ℕ) (x : A)
    → get_elem? xs i ≡ some x
    → get_elem? (map g xs) i ≡ some (g x)
get_elem?-map g [] i x h = let absurdity : ⊥ = cc in absurd absurdity
get_elem?-map g (y ∷ ys) zero x h = cc
get_elem?-map g (y ∷ ys) (suc i) x h = get_elem?-map g ys i x h

-- What a cell tells of its two parts.
pub parts_of_null :
    (m : Result Bool) (d : Result (List ℕ))
    → (m >>= λ missing. d >>= λ value. ok (if missing then none else some value)) ≡ ok none
    → m ≡ ok true
parts_of_null (ok true) d h = refl
parts_of_null (ok false) d h = ground arith
parts_of_null (throws e) d h = cc
parts_of_null undefined d h = cc

pub parts_of_value :
    (m : Result Bool) (d : Result (List ℕ)) (v : List ℕ)
    → (m >>= λ missing. d >>= λ value. ok (if missing then none else some value)) ≡ ok (some v)
    → (m ≡ ok false) × (d ≡ ok v)
parts_of_value (ok true) d v h = ground arith
parts_of_value (ok false) d v h = ground arith
parts_of_value (throws e) d v h = ground arith
parts_of_value undefined d v h = ground arith

module _ ⦃h : Host⦄ where
  convert-form :
      (format_code : ℕ) (v : Value)
      → IsValue v
      → convert (from_binary (type_of v)) (from_text (type_of v)) format_code (form format_code v)
        ≡ ok v
  unfolding convert
  convert-form format_code v p = elim (Bool-cases (format_code == 1)) [
    | inl e ↦ rw e (from_binary-binary_form v p)
    | inr e ↦ rw (e, read_string_text (to_text v) (to_text-nonzero v p)) (from_text-to_text v p)
  ]

-- What an access by type is to give for a cell: the value by its own type, and an exception for a
-- null by any.
abbrev pub Answers : Option Value → (ValueType → Result Value) → Type 0
Answers none access = (t : ValueType) → access t ≡ throws value_is_null
Answers (some v) access = access (type_of v) ≡ ok v

abbrev pub IsCell : Option Value → Type 0
IsCell none = Unit
IsCell (some v) = IsValue v

module _ ⦃h : Host⦄ (r : ResultImpl) (i c : ℕ) (f : FieldDescription)
    (described : field r c ≡ ok f) where
  cell-Answers :
      (o : Option Value)
      → IsCell o
      → cell r i c ≡ ok (sent_column f.format_code o)
      → Answers o (λ t. as_value t r i c)
  unfolding as_value cell
  cell-Answers none p e = λ t. rw (parts_of_null (is_null r i c) (at r i c) e) refl
  cell-Answers (some v) p e =
      let (present, bytes) = parts_of_value (is_null r i c) (at r i c) (form f.format_code v) e in
      rw (present, bytes, described) (convert-form f.format_code v p)

field-sent :
    (fields : List FieldDescription) (table : List (List (Option Value))) (c : ℕ)
    (f : FieldDescription)
    → get_elem? fields c ≡ some f
    → field (sent fields table) c ≡ ok f
unfolding field
field-sent fields table c f e = rw e refl

module _ ⦃h : Host⦄ where
  -- A table of typed values, sent with each field in the format of its description and fewer than
  -- 2 ^ 31 bytes of values in the row at hand: the access to a cell by the type of its value gives
  -- that value, whichever the format, and the access to a null throws `value_is_null`.
  pub as_value-sent :
      (fields : List FieldDescription) (table : List (List (Option Value))) (i c : ℕ)
      (vs : List (Option Value)) (o : Option Value) (f : FieldDescription)
      → get_elem? table i ≡ some vs
      → get_elem? vs c ≡ some o
      → get_elem? fields c ≡ some f
      → length (values (sent_row fields vs)) < 2147483648
      → IsCell o
      → Answers o (λ t. as_value t (sent fields table) i c)
  as_value-sent fields table i c vs o f at_row at_column described small valid =
      cell-Answers (sent fields table) i c f (field-sent fields table c f described) o valid
        (cell-results fields (map (sent_row fields) table) i c (sent_row fields vs)
          (sent_column f.format_code o) (get_elem?-map (sent_row fields) table i vs at_row) small
          (get_elem?-sent_row fields vs c f o described at_column)).0
