-- ===== src/Tests/Field.antt =====
-- Typed access of src/resultset.h to a small table.
use qbm_pgsql.Prelude.{
  ℕ, ◌≡◌, refl, none, some, List, [], ◌∷◌, codes, length, ◌<◌, ok, arith, Option,
}
use qbm_pgsql.Wire.{big_endian}
use qbm_pgsql.Wire.Laws.{big_endian_host}
use qbm_pgsql.Row.Columns.{values}
use qbm_pgsql.Message.{FieldDescription}
use qbm_pgsql.Convert.{Value, a_integer, a_string, integer, to_text}
use qbm_pgsql.Field.{as_value}
use qbm_pgsql.Field.Sent.{sent, sent_row, as_value-sent}

abbrev pub described : List ℕ → ℕ → FieldDescription
described name format_code = record {
  name = name;
  table_oid = 0;
  attribute_number = 0;
  type_oid = 0;
  type_size = 0;
  type_mod = 0;
  format_code = format_code;
  max_size = 0;
}

-- The first field in the binary format, the others as texts.
abbrev pub fields : List FieldDescription
fields = described (codes "id") 1 ∷ described (codes "age") 0 ∷ described (codes "name") 0 ∷ []

abbrev pub ann : List (Option Value)
ann = some (a_integer 4294967295) ∷ some (a_integer 41) ∷ some (a_string (codes "Ann")) ∷ []

abbrev pub bob : List (Option Value)
bob = some (a_integer 2) ∷ none ∷ some (a_string (codes "Bob")) ∷ []

pub ann_small : length (values (sent_row fields ann)) < 2147483648
unfolding sent_row big_endian to_text
ann_small = omega arith

pub bob_small : length (values (sent_row fields bob)) < 2147483648
unfolding sent_row big_endian to_text
bob_small = omega arith

as_value-sent_example : as_value integer (sent fields (ann ∷ bob ∷ [])) 0 1 ≡ ok (a_integer 41)
as_value-sent_example =
    as_value-sent fields (ann ∷ bob ∷ []) 0 1 ann (some (a_integer 41)) (described (codes "age") 0)
      refl refl refl ann_small (omega arith)
