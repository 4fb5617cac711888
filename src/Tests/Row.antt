-- ===== src/Tests/Row.antt =====
-- Rows of src/protocol.cpp on small inputs.
use qbm_pgsql.Prelude.{
  ℕ, ◌+◌, ◌≤◌, ◌≡◌, refl, none, some, List, [], ◌∷◌, ◌++◌, length, get_elem?, codes, ok, throws,
  undefined, out_of_range, arith,
}
use qbm_pgsql.Wire.{big_endian}
use qbm_pgsql.Wire.Laws.{big_endian_host}
use qbm_pgsql.Row.{RowData, read_row, row_size, field_data}
use qbm_pgsql.Row.Columns.{Column, column, columns_bytes}
use qbm_pgsql.Row.RoundTrip.{read_row_faithful, read_row_overrun}

abbrev person : List Column
person = some (codes "Ada") ∷ none ∷ some [] ∷ []

abbrev person_body : List ℕ
person_body = big_endian 2 3 ++ columns_bytes person []

read_row_faithful_example :
    (row : RowData) × (read_row (4 + length person_body) person_body ≡ ok (some row, []))
    × (row_size row ≡ 3)
    × ((i : ℕ) (c : Column) → get_elem? person i ≡ some c → column row i ≡ ok c)
    × ((i : ℕ) → 3 ≤ i → column row i ≡ throws out_of_range)
    × ((i : ℕ) (v : List ℕ) → get_elem? person i ≡ some (some v) → field_data row i ≡ ok v)
    × ((i : ℕ) → get_elem? person i ≡ some none → field_data row i ≡ ok [])
read_row_faithful_example = read_row_faithful person (omega arith) (omega arith)

read_row_overrun_example :
    read_row 12 (big_endian 2 1 ++ (big_endian 4 9 ++ codes "ab")) ≡ undefined
read_row_overrun_example =
    read_row_overrun 12 9 (codes "ab") (omega arith) (omega arith) (omega arith)

abbrev two_fields : RowData
two_fields = record { offsets = 0 ∷ 2 ∷ []; data_bytes = codes "abc"; null_map = [] }

field_data_first : field_data two_fields 0 ≡ ok (codes "ab")
unfolding field_data
field_data_first = refl

field_data_last : field_data two_fields 1 ≡ ok (codes "c")
unfolding field_data
field_data_last = refl
