-- ===== src/Row.antt =====
-- `row_data` of src/protocol.h and src/protocol.cpp, with `message::read(row_data &)`: a data row
-- is kept as one buffer, the offset of each field in it, and the indices of the null fields.
pub mod Columns
pub mod RoundTrip
use qbm_pgsql.Prelude.{
  ℕ, zero, suc, ◌+◌, ◌-◌, ◌*◌, ◌%◌, Bool, true, false, ◌||◌, Option, none, some, List, [], ◌∷◌,
  ◌++◌, ltb, leb, ◌==◌, if◌then◌else◌, length, get_or, take, drop, null, Result, ok, throws,
  undefined, length_error, out_of_range, ◌>>=◌,
}
use qbm_pgsql.Wire.{Host, u16, u32}
use qbm_pgsql.Reader
use qbm_pgsql.Reader.{Reader}
use qbm_pgsql.Message.{read_smallint, read_integer}
use qbm_pgsql.Unserializer.{is_negative32}

pub record RowData : Type 0 where
  pub offsets : List ℕ
  pub data_bytes : List ℕ
  pub null_map : List ℕ

abbrev pub empty_row : RowData
empty_row = record { offsets = []; data_bytes = []; null_map = [] }

-- One round of the loop over the columns. A size of -1 marks a null; any other size that is not
-- positive leaves the field empty. The copy does not look at the end of the payload.
unfoldable pub read_column : ℕ → RowData → ℕ → Reader RowData
read_column i row col_size s =
    let row' = record row { offsets = row.offsets ++ u32 (length row.data_bytes) ∷ [] } in
    if col_size == 4294967295
    then ok (some (record row' { null_map = row.null_map ++ u16 i ∷ [] }), s)
    else if col_size == 0 || is_negative32 col_size
    then ok (some row', s)
    else if ltb (length s) col_size
    then undefined
    else ok (some (record row' { data_bytes = row.data_bytes ++ take col_size s }), drop col_size s)

module _ ⦃h : Host⦄ where
  -- The rounds that are left, from column `i` on.
  pub read_columns : ℕ → ℕ → RowData → Reader RowData
  read_columns zero i row s = ok (some row, s)
  read_columns (suc n) i row s =
      Reader.continue (read_integer s)
        (λ size s'. Reader.continue (read_column i row size s') (read_columns n (suc i)))

  -- `offsets.reserve` throws at a negative count, and `data.reserve` where the message is too short
  -- for the sizes of the columns, since the unsigned difference wraps to more than `max_size()`.
  unfoldable pub read_row : ℕ → Reader RowData
  unfolding read_columns read_column
  read_row len s = Reader.continue (read_smallint s) (λ col_count s'.
      if leb 32768 col_count || ltb len (4 * (col_count + 1) + 2)
      then throws length_error
      else read_columns col_count 0 empty_row s')

unfoldable pub row_size : RowData → ℕ
row_size row = u16 (length row.offsets)

unfoldable pub check_index : RowData → ℕ → Result (Unit {0})
check_index row index = if leb (length row.offsets) index then throws out_of_range else ok tt

-- `null_map.count(index)`
abbrev pub contains : List ℕ → ℕ → Bool
contains [] i = false
contains (n ∷ ns) i = n == i || contains ns i

unfoldable pub is_null : RowData → ℕ → Result Bool
unfolding check_index
is_null row index = do _ ← check_index row index; ok (contains row.null_map index)

-- Two positions in the buffer. An offset is a signed number.
abbrev pub position : ℕ → Result ℕ
position offset = if is_negative32 offset then undefined else ok offset

unfoldable pub field_buffer_bounds : RowData → ℕ → Result (ℕ × ℕ)
unfolding check_index
field_buffer_bounds row index = do
  _ ← check_index row index
  s ← position (get_or row.offsets index 0)
  if index == length row.offsets - 1
      then ok (s, length row.data_bytes)
      else (do e ← position (get_or row.offsets (index + 1) 0); ok (s, e))

-- The bytes between the bounds.
unfoldable pub field_data : RowData → ℕ → Result (List ℕ)
unfolding field_buffer_bounds
field_data row index = do
  (s, e) ← field_buffer_bounds row index
  ok (take (e - s) (drop s row.data_bytes))
