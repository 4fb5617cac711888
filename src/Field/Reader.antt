-- ===== src/Field/Reader.antt =====
-- `FieldReader` of src/field_reader.h. `none` is a return of false, with the value left alone.
use qbm_pgsql.Prelude.{
  ℕ, Bool, true, false, not, Option, none, some, List, ◌==◌, if◌then◌else◌, null, get_or, Result,
  ok, throws, undefined, ◌>>=◌,
}
use qbm_pgsql.Wire.{Host}
use qbm_pgsql.Unserializer.{
  read_smallint, read_integer, read_bigint, read_float, read_double, read_string,
}

-- The `try` and `catch` around each reader.
abbrev pub read_or_false : {A : Type 0} → Result A → Result (Option A)
read_or_false (ok v) = ok (some v)
read_or_false (throws e) = ok none
read_or_false undefined = undefined

module _ ⦃h : Host⦄ where
  unfoldable pub value_of_smallint : List ℕ → Result (Option ℕ)
  unfolding read_smallint
  value_of_smallint buffer = read_or_false (read_smallint buffer)

  unfoldable pub value_of_integer : List ℕ → Result (Option ℕ)
  unfolding read_integer
  value_of_integer buffer = read_or_false (read_integer buffer)

  unfoldable pub value_of_bigint : List ℕ → Result (Option ℕ)
  unfolding read_bigint
  value_of_bigint buffer = read_or_false (read_bigint buffer)

  unfoldable pub value_of_float : List ℕ → Result (Option ℕ)
  unfolding read_float
  value_of_float buffer = read_or_false (read_float buffer)

  unfoldable pub value_of_double : List ℕ → Result (Option ℕ)
  unfolding read_double
  value_of_double buffer = read_or_false (read_double buffer)

  unfoldable pub value_of_string : List ℕ → Result (Option (List ℕ))
  unfolding read_string
  value_of_string buffer = read_or_false (read_string buffer)

unfoldable pub value_of_bool : List ℕ → Result (Option Bool)
value_of_bool buffer = if null buffer then ok none else ok (some (not (get_or buffer 0 0 == 0)))

-- `read_value` of an optional, by that of its type: the optional that it leaves, and what it returns.
unfoldable pub value_of_optional :
    {A : Type 0} → (List ℕ → Result (Option A)) → List ℕ → Result (Option A × Bool)
value_of_optional read buffer =
    read buffer >>= λ found. elim found [ none ↦ ok (none, false) | some v ↦ ok (some v, true) ]
