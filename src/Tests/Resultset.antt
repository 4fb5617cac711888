-- ===== src/Tests/Resultset.antt =====
-- Results of src/resultset.cpp on small inputs.
use qbm_pgsql.Prelude.{ℕ, ◌<◌, ◌≡◌, refl, false, ◌≢◌, none, some, List, [], ◌∷◌, codes, arith}
use qbm_pgsql.Message.{FieldDescription}
use qbm_pgsql.Row.Columns.{Column}
use qbm_pgsql.Resultset.{advance, no_row, end_row, rbegin_row, rend_row, negated}
use qbm_pgsql.Resultset.Iterators.{forward, backward, rows_iterated}

abbrev id_field : FieldDescription
id_field = record {
  name = codes "id";
  table_oid = 0;
  attribute_number = 0;
  type_oid = 23;
  type_size = 4;
  type_mod = 0;
  format_code = 1;
  max_size = 0;
}

abbrev one : List Column
one = some (codes "1") ∷ none ∷ []

abbrev people : List (List Column)
people = one ∷ (none ∷ some (codes "x") ∷ []) ∷ []

rows_iterated_example :
    ((n : ℕ) → n < 3 → forward 3 n ≡ n)
    × (forward 3 3 ≡ end_row 3)
    × (1 < 3 → advance 3 (rbegin_row 3) no_row ≡ 1)
    × (0 < 3 → (n : ℕ) → backward 3 n ≢ rend_row)
    × (advance 3 no_row no_row ≡ no_row)
rows_iterated_example = rows_iterated 3 (omega arith)

-- Of a result without rows `!` is false.
none_negated : negated (record { row_description = []; rows = [] }) ≡ false
unfolding negated
none_negated = refl
