-- ===== src/Resultset.antt =====
-- `result_impl` of src/result_impl.cpp and `resultset` of src/resultset.cpp: the rows of a query and
-- the description of their fields, with access by index, by name and by iterators.
pub mod Access
pub mod Iterators
use qbm_pgsql.Prelude.{
  ℕ, suc, ◌+◌, ◌%◌, Bool, true, false, not, ◌||◌, Option, none, some, List, [], ◌∷◌, ltb, leb,
  if◌then◌else◌, length, get_elem?, null, bytes_eq, Result, ok, throws, undefined, out_of_range,
  runtime_error, ◌>>=◌,
}
use qbm_pgsql.Wire.{u16, u32}
use qbm_pgsql.Message.{FieldDescription}
use qbm_pgsql.Row
use qbm_pgsql.Row.{RowData, field_data, field_buffer_bounds}

pub record ResultImpl : Type 0 where
  pub row_description : List FieldDescription
  pub rows : List RowData

-- The largest `uinteger`; an iterator has a `npos` of its own, the largest `size_t`.
abbrev pub npos : ℕ
npos = 4294967295

abbrev pub no_row : ℕ
no_row = 18446744073709551615

unfoldable pub size : ResultImpl → ℕ
size r = length r.rows

unfoldable pub empty : ResultImpl → Bool
empty r = null r.rows

-- `operator bool` of a result, and `operator!`, whose `return *this` converts by the former.
unfoldable pub to_bool : ResultImpl → Bool
unfolding empty
to_bool r = not (empty r)

unfoldable pub negated : ResultImpl → Bool
unfolding to_bool
negated r = to_bool r

-- The number of columns is a `smallint`.
unfoldable pub columns_size : ResultImpl → ℕ
columns_size r = u16 (length r.row_description)

abbrev pub row_at : List RowData → ℕ → Result RowData
row_at rows i = elim (get_elem? rows i) [ none ↦ undefined | some row ↦ ok row ]

-- `check_row_index`, then `rows_[row]`.
unfoldable pub checked_row : ResultImpl → ℕ → Result RowData
checked_row r i = if leb (length r.rows) i then throws out_of_range else row_at r.rows i

unfoldable pub at : ResultImpl → ℕ → ℕ → Result (List ℕ)
unfolding checked_row field_data
at r i c = do row ← checked_row r i; field_data row c

unfoldable pub is_null : ResultImpl → ℕ → ℕ → Result Bool
unfolding checked_row Row.is_null
is_null r i c = do row ← checked_row r i; Row.is_null row c

unfoldable pub buffer_bounds : ResultImpl → ℕ → ℕ → Result (ℕ × ℕ)
unfolding checked_row field_buffer_bounds
buffer_bounds r i c = do row ← checked_row r i; field_buffer_bounds row c

-- `std::find_if` by name, as an index from `i` on.
unfoldable pub find_name : List FieldDescription → List ℕ → ℕ → Option ℕ
find_name [] name i = none
find_name (f ∷ fs) name i = if bytes_eq f.name name then some i else find_name fs name (suc i)

unfoldable pub index_of_name : ResultImpl → List ℕ → ℕ
unfolding find_name
index_of_name r name = elim (find_name r.row_description name 0) [ none ↦ npos | some i ↦ u32 i ]

-- `field` by index, and by name.
unfoldable pub field : ResultImpl → ℕ → Result FieldDescription
field r i = elim (get_elem? r.row_description i) [ none ↦ throws out_of_range | some f ↦ ok f ]

unfoldable pub search_field : List FieldDescription → List ℕ → Result FieldDescription
search_field [] name = throws runtime_error
search_field (f ∷ fs) name = if bytes_eq f.name name then ok f else search_field fs name

unfoldable pub field_by_name : ResultImpl → List ℕ → Result FieldDescription
unfolding search_field
field_by_name r name = search_field r.row_description name

-- `const_row_iterator::advance` on an iterator of a result with `count` rows: the index and the
-- distance are 64-bit patterns, the target is compared with the rows as a `uinteger`. An iterator
-- that belongs to a result converts to true, so that the second branch of the source is for one
-- that belongs to none.
unfoldable pub advance : ℕ → ℕ → ℕ → ℕ
advance count index distance =
    let target = (distance + index) % 18446744073709551616 in
    if leb 9223372036854775808 target || ltb (u32 count) (u32 target) then no_row else target

-- `const_field_iterator::advance`, on a row of `columns` columns, a 16-bit pattern; its `npos` is
-- that of a row, the largest `smallint`.
abbrev pub no_field : ℕ
no_field = 32767

unfoldable pub advance_field : ℕ → ℕ → ℕ → ℕ
advance_field columns index distance =
    let target = (distance + index) % 18446744073709551616 in
    if leb 9223372036854775808 target || (leb 32768 columns || ltb columns target)
    then no_field
    else target

-- `begin`, `end`, `rbegin` and `rend` of a result with `count` rows, as the index of the iterator,
-- or of the base of the reverse one.
abbrev pub begin_row : ℕ
begin_row = 0

abbrev pub end_row : ℕ → ℕ
end_row count = u32 count

abbrev pub rbegin_row : ℕ → ℕ
rbegin_row count = u32 (u32 count + 4294967295)

abbrev pub rend_row : ℕ
rend_row = npos

-- Those of a row of `columns` columns.
abbrev pub rbegin_field : ℕ → ℕ
rbegin_field columns = u32 (columns + 4294967295)

abbrev pub rend_field : ℕ
rend_field = no_field
