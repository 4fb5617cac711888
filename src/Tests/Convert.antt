-- ===== src/Tests/Convert.antt =====
-- Conversions of src/type_converter.h on small inputs.
use qbm_pgsql.Prelude.{
  ℕ, ◌≡◌, refl, none, some, List, [], ◌∷◌, ◌++◌, codes, ok, throws, undefined, invalid_argument,
  out_of_range, runtime_error, arith,
}
use qbm_pgsql.Prelude.Int.{signed}
use qbm_pgsql.Wire.{big_endian}
use qbm_pgsql.Wire.Laws.{big_endian_host}
use qbm_pgsql.Decimal.{to_string, sto}
use qbm_pgsql.Convert.{
  a_integer, a_smallint, integer, smallint, from_text, to_text, optional_from_binary, half32,
}
use qbm_pgsql.Convert.Wire.{from_text-to_text}
use qbm_pgsql.Convert.Optional.{optional_from_binary-binary_form}
use qbm_pgsql.Special.{
  Timestamp, timestamp_from_binary, uuid_to_binary, uuid_from_binary, JsonLibrary, json_from_binary,
  json_to_binary, jsonb_from_binary, jsonb_to_binary,
}
use qbm_pgsql.Special.Instants.{IsInstant, timestamp_from_binary-exact}
use qbm_pgsql.Special.Prefix.{uuid_from_binary-uuid_to_binary, jsonb_from_binary-jsonb_to_binary}

numbers :
    (sto half32 10 (codes "  -12x") ≡ ok 4294967284)
    × (sto half32 10 (codes "x") ≡ throws invalid_argument)
    × (sto half32 10 (codes "2147483648") ≡ throws out_of_range)
    × (sto half32 16 (codes "ff") ≡ ok 255)
    × (to_string half32 4294967284 ≡ codes "-12")
unfolding sto to_string
numbers = (refl, refl, refl, refl, refl)

-- A number that no smallint holds is cut.
cut : from_text smallint (codes "65537") ≡ ok (a_smallint 1)
unfolding from_text
cut = refl

from_text-to_text_example :
    from_text integer (to_text (a_integer 4294967284)) ≡ ok (a_integer 4294967284)
from_text-to_text_example = from_text-to_text (a_integer 4294967284) (omega arith)

-- The integer -1.
optional_from_binary-binary_form_example :
    optional_from_binary integer (big_endian 4 4294967295) ≡ ok none
optional_from_binary-binary_form_example =
    optional_from_binary-binary_form (a_integer 4294967295) (omega arith)

abbrev two_seconds : ℕ
two_seconds = 2000000

timestamp_from_binary-exact_example :
    (t : Timestamp) × (timestamp_from_binary (big_endian 8 two_seconds) ≡ ok t)
    × (timestamp_from_binary ((0 ∷ 0 ∷ 0 ∷ 8 ∷ []) ++ big_endian 8 two_seconds) ≡ ok t)
    × IsInstant (signed 9223372036854775808 two_seconds) t
    × (timestamp_from_binary (codes "123456789") ≡ undefined)
timestamp_from_binary-exact_example =
    timestamp_from_binary-exact two_seconds (0 ∷ 0 ∷ 0 ∷ 8 ∷ []) (codes "123456789") (omega arith)
      refl (omega arith) (omega arith)

uuid_from_binary-uuid_to_binary_example :
    (uuid_from_binary (uuid_to_binary (codes "0123456789abcdef") [])
      ≡ ok (codes "0123456789abcdef"))
    × (uuid_from_binary (codes "0123456789abcdef") ≡ throws runtime_error)
uuid_from_binary-uuid_to_binary_example =
    uuid_from_binary-uuid_to_binary (codes "0123456789abcdef") [] refl

-- Documents that are kept as their text.
abbrev texts : JsonLibrary
texts = record { Json = List ℕ; dump = λ j. j; parse = λ s. some s; parse-dump = λ j. refl }

jsonb_from_binary-jsonb_to_binary_example :
    (json_from_binary texts (json_to_binary texts (codes "[1, 2]") []) ≡ ok (codes "[1, 2]"))
    × (jsonb_from_binary texts (jsonb_to_binary texts (codes "[1, 2]") []) ≡ ok (codes "[1, 2]"))
    × (jsonb_from_binary texts (1 ∷ codes "[1, 2]") ≡ throws runtime_error)
jsonb_from_binary-jsonb_to_binary_example =
    jsonb_from_binary-jsonb_to_binary texts (codes "[1, 2]") (omega arith) (omega arith)
