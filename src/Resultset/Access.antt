-- ===== src/Resultset/Access.antt =====
-- Access to the results of src/resultset.cpp.
use qbm_pgsql.Prelude.{
  ℕ, zero, suc, ◌≤◌, ◌<◌, ◌≡◌, refl, ◌∙◌, none, some, List, [], ◌∷◌, if◌then◌else◌, length,
  get_elem?, map, ◌≢◌, Result, ok, throws, out_of_range, ◌>>=◌, arith, length-map,
}
use qbm_pgsql.Message.{FieldDescription}
use qbm_pgsql.Row
use qbm_pgsql.Row.{RowData, field_data}
use qbm_pgsql.Row.Columns.{Column, column, values}
use qbm_pgsql.Row.RoundTrip.{received, column-received}
use qbm_pgsql.Resultset.{ResultImpl, checked_row, row_at, at, is_null}

-- What a program sees of a cell.
unfoldable pub cell : ResultImpl → ℕ → ℕ → Result Column
unfolding is_null at
cell r i c = do missing ← is_null r i c; value ← at r i c; ok (if missing then none else some value)

-- The result of rows that came as these columns.
abbrev pub results : List FieldDescription → List (List Column) → ResultImpl
results fields css = record { row_description = fields; rows = map received css }

row_at-received :
    (css : List (List Column)) (i : ℕ) (cs : List Column)
    → get_elem? css i ≡ some cs
    → (i < length css) × (row_at (map received css) i ≡ ok (received cs))
row_at-received [] i cs e = let x : ⊥ = cc in absurd x
row_at-received (c ∷ css) zero cs e = (omega arith, ground arith)
row_at-received (c ∷ css) (suc i) cs e =
    let r = row_at-received css i cs e in (omega (arith, r.0), r.1)

checked_row-received :
    (fields : List FieldDescription) (css : List (List Column)) (i : ℕ) (cs : List Column)
    → get_elem? css i ≡ some cs
    → checked_row (results fields css) i ≡ ok (received cs)
unfolding checked_row
checked_row-received fields css i cs e =
    let r = row_at-received css i cs e in ground (arith, length-map received css, r.0, r.1)

-- A cell by the row that was found.
cell_of : Result RowData → ℕ → Result Column
cell_of row c = (row >>= λ r. Row.is_null r c) >>= λ missing.
    (row >>= λ r. field_data r c) >>= λ value. ok (if missing then none else some value)

cell_of-cell : (r : ResultImpl) (i c : ℕ) → cell r i c ≡ cell_of (checked_row r i) c
unfolding cell cell_of
cell_of-cell r i c = refl

cell_of-column :
    (x : Result RowData) (c : ℕ) (row : RowData) → x ≡ ok row → cell_of x c ≡ column row c
unfolding cell_of column
cell_of-column x c row e = rw e refl

cell_of-throws :
    (x : Result RowData) (c : ℕ) → x ≡ throws out_of_range → cell_of x c ≡ throws out_of_range
unfolding cell_of
cell_of-throws x c e = rw e refl

checked_row-out_of_range :
    (fields : List FieldDescription) (css : List (List Column)) (i : ℕ)
    → length css ≤ i
    → checked_row (results fields css) i ≡ throws out_of_range
unfolding checked_row
checked_row-out_of_range fields css i h = ground (arith, length-map received css)

-- Each cell of rows that came with fewer than 2 ^ 31 bytes of values is the column that was sent,
-- and a row index past the rows throws `out_of_range`.
pub cell-results :
    (fields : List FieldDescription) (css : List (List Column)) (i j : ℕ) (cs : List Column)
    (c : Column)
    → get_elem? css i ≡ some cs
    → length (values cs) < 2147483648
    → get_elem? cs j ≡ some c
    → (cell (results fields css) i j ≡ ok c)
      × ((k : ℕ) → length css ≤ k → cell (results fields css) k j ≡ throws out_of_range)
cell-results fields css i j cs c e p f = (
  cell_of-cell (results fields css) i j
      ∙ (cell_of-column (checked_row (results fields css) i) j (received cs)
            (checked_row-received fields css i cs e)
          ∙ column-received cs j c p f),
  λ k h.
      cell_of-cell (results fields css) k j
      ∙ cell_of-throws (checked_row (results fields css) k) j
          (checked_row-out_of_range fields css k h),
)

-- The search by name finds the first field of that name, at the index of the name.
abbrev pub Unnamed : List FieldDescription → ℕ → List ℕ → Type 0
Unnamed fs n name = (j : ℕ) (g : FieldDescription) → j < n → get_elem? fs j ≡ some g → g.name ≢ name
