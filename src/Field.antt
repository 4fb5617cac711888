-- ===== src/Field.antt =====
-- The typed access of src/resultset.h and src/resultset.inl, and the reader of src/field_reader.h.
pub mod Sent
pub mod Rows
pub mod To
pub mod Unassigned
pub mod Reader
pub mod Widths
use qbm_pgsql.Prelude.{
  ℕ, suc, ◌%◌, Bool, true, false, not, Option, none, some, List, [], ◌∷◌, ◌==◌, if◌then◌else◌, null,
  get_or, Result, ok, throws, undefined, value_is_null, ◌>>=◌,
}
use qbm_pgsql.Wire.{Host}
use qbm_pgsql.Unserializer.{read_smallint, read_integer, read_bigint, read_string}
use qbm_pgsql.Convert.{
  ValueType, Value, a_boolean, a_smallint, a_integer, a_bigint, a_string, from_text, from_binary,
  optional_from_text, optional_from_binary,
}
use qbm_pgsql.Resultset.{ResultImpl, is_null, at, field, index_of_name}

module _ ⦃h : Host⦄ where
  -- The conversion by the format of the field: 1 is the binary one. A text goes through
  -- `read_string` first.
  unfoldable pub convert :
      {A : Type 0} → (List ℕ → Result A) → (List ℕ → Result A) → ℕ → List ℕ → Result A
  convert binary text format_code buffer =
      if format_code == 1 then binary buffer else (do s ← read_string buffer; text s)

  -- `field::as<T>`, and `field::as<std::optional<T>>`, of the field of row `i` at column `c`.
  unfoldable pub as_value : ValueType → ResultImpl → ℕ → ℕ → Result Value
  unfolding convert is_null at field from_text from_binary
  as_value t r i c = do
    missing ← is_null r i c
    if missing then throws value_is_null else (do
      buffer ← at r i c
      description ← field r c
      convert (from_binary t) (from_text t) description.format_code buffer)

  unfoldable pub as_optional : ValueType → ResultImpl → ℕ → ℕ → Result (Option Value)
  unfolding convert is_null at field optional_from_text optional_from_binary
  as_optional t r i c = do
    missing ← is_null r i c
    if missing then ok none else (do
      buffer ← at r i c
      description ← field r c
      convert (optional_from_binary t) (optional_from_text t) description.format_code buffer)

  -- `row[name].as<T>()`: a name that is not found is the index -1, and a row takes an index of 16
  -- bits.
  unfoldable pub as_value_of_name : ValueType → ResultImpl → ℕ → List ℕ → Result Value
  unfolding as_value index_of_name
  as_value_of_name t r i name = as_value t r i (index_of_name r name % 65536)

  -- `row::to` with a tuple or with references: the fields from column `c` on are assigned in order,
  -- up to the first that throws. The values that were assigned come with the outcome.
  unfoldable pub row_to : ResultImpl → ℕ → ℕ → List ValueType → List Value × Result (Unit {0})
  unfolding as_value
  row_to r i c [] = ([], ok tt)
  row_to r i c (t ∷ ts) =
      let (values, outcome) = row_to r i (suc c) ts in
      elim (as_value t r i c) [
        | ok v ↦ (v ∷ values, outcome)
        | throws e ↦ ([], throws e)
        | undefined ↦ ([], undefined)
      ]
