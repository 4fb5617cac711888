-- ===== src/Row/Columns.antt =====
-- The columns that a row of src/protocol.cpp stands for, and their form on the wire.
use qbm_pgsql.Prelude.{
  ℕ, suc, ◌+◌, ◌<◌, ◌≡◌, refl, Option, none, some, List, [], ◌∷◌, ◌++◌, length, length-append,
  arith, Result, ok, ◌>>=◌, if◌then◌else◌, append_assoc, append-nil, take-append, drop-append,
}
use qbm_pgsql.Wire.{Host, big_endian}
use qbm_pgsql.Row.{RowData, is_null, field_data, read_column, read_columns}
use qbm_pgsql.Message.Reads.{read_integer-big_endian}

-- A column is null or holds a value.
abbrev pub Column : Type 0
Column = Option (List ℕ)

-- What a client sees of a column: `is_null`, and the value if it is not.
unfoldable pub column : RowData → ℕ → Result Column
column row i = do
  missing ← is_null row i
  value ← field_data row i
  ok (if missing then none else some value)

abbrev pub value_of : Column → List ℕ
value_of none = []
value_of (some v) = v

-- The size on the wire: -1 for a null.
abbrev pub size_of : Column → ℕ
size_of none = 4294967295
size_of (some v) = length v

abbrev pub null_at : ℕ → Column → List ℕ
null_at i none = i ∷ []
null_at i (some v) = []

abbrev pub column_bytes : Column → List ℕ → List ℕ
column_bytes c s = big_endian 4 (size_of c) ++ (value_of c ++ s)

-- The body of a data row behind its count of columns, with what follows it.
abbrev pub columns_bytes : List Column → List ℕ → List ℕ
columns_bytes [] s = s
columns_bytes (c ∷ cs) s = column_bytes c (columns_bytes cs s)

-- The parts of the row that the reader builds from these columns.
abbrev pub values : List Column → List ℕ
values [] = []
values (c ∷ cs) = value_of c ++ values cs

abbrev pub offsets_from : ℕ → List Column → List ℕ
offsets_from d [] = []
offsets_from d (c ∷ cs) = d ∷ offsets_from (d + length (value_of c)) cs

abbrev pub nulls_from : ℕ → List Column → List ℕ
nulls_from i [] = []
nulls_from i (c ∷ cs) = null_at i c ++ nulls_from (suc i) cs

abbrev pub extended : RowData → ℕ → List Column → RowData
extended row i cs = record {
  offsets = row.offsets ++ offsets_from (length row.data_bytes) cs;
  data_bytes = row.data_bytes ++ values cs;
  null_map = row.null_map ++ nulls_from i cs;
}

abbrev with_column : RowData → ℕ → Column → RowData
with_column row i c = record {
  offsets = row.offsets ++ length row.data_bytes ∷ [];
  data_bytes = row.data_bytes ++ value_of c;
  null_map = row.null_map ++ null_at i c;
}

-- One round of the loop reads one column.
read_column-size_of :
    (i : ℕ) (row : RowData) (c : Column) (s : List ℕ)
    → i < 65536
    → length row.data_bytes + length (value_of c) < 2147483648
    → read_column i row (size_of c) (value_of c ++ s) ≡ ok (some (with_column row i c), s)
unfolding read_column
read_column-size_of i row none s p q = ground (arith, append-nil row.data_bytes)
read_column-size_of i row (some []) s p q =
    ground (arith, append-nil row.data_bytes, append-nil row.null_map)
read_column-size_of i row (some (x ∷ v)) s p q = ground (
  arith,
  length-append (x ∷ v) s,
  take-append (suc (length v)) (x ∷ v) s refl,
  drop-append (suc (length v)) (x ∷ v) s refl,
  append-nil row.null_map,
)

size_of-lt : (c : Column) → length (value_of c) < 2147483648 → size_of c < 4294967296
size_of-lt none h = omega arith
size_of-lt (some v) h = omega arith

extended-with_column :
    (row : RowData) (i : ℕ) (c : Column) (cs : List Column)
    → extended (with_column row i c) (suc i) cs ≡ extended row i (c ∷ cs)
extended-with_column row i c cs = simp (append_assoc, length-append)

module _ ⦃h : Host⦄ where
  pub read_columns-columns_bytes :
      (cs : List Column) (i : ℕ) (row : RowData) (s : List ℕ)
      → i + length cs < 65536
      → length row.data_bytes + length (values cs) < 2147483648
      → read_columns (length cs) i row (columns_bytes cs s) ≡ ok (some (extended row i cs), s)
  unfolding read_columns
  read_columns-columns_bytes [] i row s p q = simp append-nil
  read_columns-columns_bytes (c ∷ cs) i row s p q =
      rw
        (
          read_integer-big_endian (size_of c) _
              (size_of-lt c (omega (arith, length-append (value_of c) (values cs)))),
          read_column-size_of i row c (columns_bytes cs s) (omega arith)
              (omega (arith, length-append (value_of c) (values cs))),
          ← extended-with_column row i c cs,
        )
        (read_columns-columns_bytes cs (suc i) (with_column row i c) s (omega arith) (
          omega (
            arith,
            length-append (value_of c) (values cs),
            length-append row.data_bytes (value_of c),
          )))
