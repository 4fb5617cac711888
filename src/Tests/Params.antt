-- ===== src/Tests/Params.antt =====
-- Parameters of src/param_serializer.h on small inputs.
use qbm_pgsql.Prelude.{
  All, ◌≡◌, refl, true, false, none, ok, map, List, [], ◌∷◌, ◌++◌, length, codes, arith,
}
use qbm_pgsql.Wire.{big_endian, network_bytes}
use qbm_pgsql.Wire.Laws.{big_endian_host}
use qbm_pgsql.Row.Columns.{Column, columns_bytes}
use qbm_pgsql.Params.{
  Param, nullptr, missing, value, strings, vector, text, integer, a_boolean, a_integer, add_params,
  ParamSerializer, serialize_params, cleared,
}
use qbm_pgsql.Params.Adders.{Call, add_calls, finalize_params_buffer, finalize_format_codes}
use qbm_pgsql.Params.Adders.Dispatch.{converted}
use qbm_pgsql.Params.Adders.Laws.{param_of, add_calls-add_params}
use qbm_pgsql.Params.Values.{IsParam}
use qbm_pgsql.Params.Typed.{Typed, serialize_params-Typed}
use qbm_pgsql.Params.Layout.{all_cells, all_oids, serialize_params-columns_bytes}

abbrev arguments : List Param
arguments =
    value (a_integer 7)
    ∷ nullptr
    ∷ missing text
    ∷ strings (codes "a" ∷ codes "bc" ∷ [])
    ∷ vector integer (a_integer 1 ∷ [])
    ∷ value (a_boolean true)
    ∷ []

arguments-IsParam : All IsParam arguments
unfolding big_endian
arguments-IsParam = (
  omega arith,
  (
    tt,
    (
      tt,
      ((omega arith, (omega arith, tt)), (((omega arith, tt), omega arith, omega arith), (tt, tt))),
    ),
  ),
)

serialize_params-columns_bytes_example :
    (serialize_params cleared arguments).params_buffer
      ≡ big_endian 2 (length (all_cells arguments)) ++ columns_bytes (all_cells arguments) []
    × ((serialize_params cleared arguments).param_types ≡ all_oids arguments)
    × (length (all_oids arguments) ≡ length (all_cells arguments))
unfolding big_endian
serialize_params-columns_bytes_example =
    serialize_params-columns_bytes cleared arguments arguments-IsParam (omega arith)

abbrev calls : List Call
calls =
    Call.smallint 65535
    ∷ Call.cstring none
    ∷ Call.string (codes "ab")
    ∷ Call.optional_string none
    ∷ []

add_calls-add_params_example : add_calls cleared calls ≡ add_params cleared (map param_of calls)
add_calls-add_params_example = add_calls-add_params calls cleared

types_of_calls : (add_calls cleared calls).param_types ≡ 21 ∷ 25 ∷ 25 ∷ 0 ∷ []
unfolding add_calls
types_of_calls = refl

-- A signed character of -1 as a smallint, and an unsigned one.
sign_extended : converted 2 1 true 255 ≡ 65535
unfolding converted
sign_extended = refl

zero_extended : converted 2 1 false 255 ≡ 255
unfolding converted
zero_extended = refl

-- The length of the only parameter is overwritten in part by the count.
abbrev one_bool : ParamSerializer
one_bool = record cleared { params_buffer = 0 ∷ 0 ∷ 0 ∷ 1 ∷ 1 ∷ []; param_types = 16 ∷ [] }

length_overwritten :
    finalize_params_buffer one_bool
    ≡ ok (record one_bool { params_buffer = 0 ∷ 1 ∷ 0 ∷ 1 ∷ 1 ∷ [] })
unfolding finalize_params_buffer network_bytes big_endian
length_overwritten = refl

codes_counted :
    finalize_format_codes one_bool ≡ ok (record one_bool { format_codes_buffer = 0 ∷ 1 ∷ [] })
unfolding finalize_format_codes network_bytes big_endian
codes_counted = refl

serialize_params-Typed_example :
    (cs : List Column) × ((serialize_params cleared arguments).params_buffer
      ≡ big_endian 2 (length cs) ++ columns_bytes cs [])
    × Typed (serialize_params cleared arguments).param_types cs
serialize_params-Typed_example =
    serialize_params-Typed cleared arguments arguments-IsParam (omega arith)
