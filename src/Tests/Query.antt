-- ===== src/Tests/Query.antt =====
-- Queries of src/queries.h on small inputs.
use qbm_pgsql.Prelude.{ℕ, ◌≡◌, refl, true, List, [], ◌∷◌, ◌++◌, codes, ok, arith}
use qbm_pgsql.Wire.{big_endian}
use qbm_pgsql.Wire.Laws.{big_endian_host}
use qbm_pgsql.Message.{Message, buffer}
use qbm_pgsql.Message.Laws.{frame}
use qbm_pgsql.Message.Tag
use qbm_pgsql.Row.Columns.{columns_bytes}
use qbm_pgsql.Params.{Param, value, a_integer, nullptr}
use qbm_pgsql.Params.Layout.{all_cells}
use qbm_pgsql.Query.{
  PreparedQuery, PreparedStorage, execute, get, message_of, mode_text, query_params, serializable,
}
use qbm_pgsql.Query.Wire.{bind_body}
use qbm_pgsql.Query.Execute.{execute-frames}

abbrev by_id : PreparedQuery
by_id = record {
  name = codes "by_id";
  expression = codes "select * from t where id = $1";
  param_types = 23 ∷ [];
  row_description = [];
}

abbrev stored : PreparedStorage
stored = (codes "by_id", by_id) ∷ []

abbrev seven : List ℕ
seven = 0 ∷ 0 ∷ 0 ∷ 4 ∷ 0 ∷ 0 ∷ 0 ∷ 7 ∷ []

abbrev arguments : List Param
arguments = value (a_integer 7) ∷ nullptr ∷ []

execute-frames_example :
    (m : Message) × (message_of stored (execute (codes "by_id") (query_params arguments)) ≡ ok m)
    × (buffer m
        ≡ frame Tag.bind (bind_body (codes "by_id") 2 (columns_bytes (all_cells arguments) []))
          ++ (frame Tag.execute (0 ∷ big_endian 4 0) ++ frame Tag.sync []))
unfolding get big_endian
execute-frames_example =
    execute-frames stored by_id (codes "by_id") (value (a_integer 7)) (nullptr ∷ []) refl
      (omega arith, (tt, tt)) (omega arith) (omega arith)

mode_text_serializable :
    mode_text (record { isolation = serializable; read_only = true; deferrable = true })
    ≡ codes " ISOLATION LEVEL serializable, READ ONLY, DEFERRABLE"
unfolding mode_text
mode_text_serializable = refl
