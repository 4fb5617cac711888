-- ===== src/Query/Execute.antt =====
-- From the arguments of a call to the wire: `execute` on a prepared statement, through
-- `QueryParams` and `ExecuteQuery::get` of src/queries.h.
use qbm_pgsql.Prelude.{ℕ, ◌+◌, ◌<◌, ◌≡◌, refl, List, [], ◌∷◌, ◌++◌, length, All, ok, arith}
use qbm_pgsql.Wire.{Host, big_endian}
use qbm_pgsql.Message.{Message, buffer}
use qbm_pgsql.Message.Laws.{frame}
use qbm_pgsql.Message.Tag
use qbm_pgsql.Row.Columns.{Column, columns_bytes}
use qbm_pgsql.Params.{Param, cleared}
use qbm_pgsql.Params.Values.{IsParam}
use qbm_pgsql.Params.Layout.{all_cells, serialize_params-columns_bytes}
use qbm_pgsql.Query.{
  PreparedStorage, PreparedQuery, execute, get, message_of, query_params, bind_message,
}
use qbm_pgsql.Query.Wire.{bind_body, bind_message-frames}

module _ ⦃h : Host⦄ where
  query_params-params :
      (a : Param) (args : List Param)
      → All IsParam (a ∷ args)
      → length (all_cells (a ∷ args)) < 65536
      → (query_params (a ∷ args)).params
        ≡ big_endian 2 (length (all_cells (a ∷ args))) ++ columns_bytes (all_cells (a ∷ args)) []
  unfolding query_params
  query_params-params a args v n = (serialize_params-columns_bytes cleared (a ∷ args) v n).0

  no_cells : (cs : List Column) → length cs ≡ 0 → columns_bytes cs [] ≡ []
  no_cells [] e = refl
  no_cells (c ∷ cs) e = absurd (omega arith)

  -- The execution of a registered statement with one argument or more, in the ranges of their types,
  -- fewer than 2 ^ 15 values in all, and such that the Bind has fewer than 2 ^ 32 - 4 bytes of body,
  -- sends a Bind that names the statement and carries exactly the cells of the arguments, then an
  -- Execute and a Sync.
  pub execute-frames :
      (s : PreparedStorage) (q : PreparedQuery) (name : List ℕ) (a : Param) (args : List Param)
      → get s name ≡ ok q
      → All IsParam (a ∷ args)
      → length (all_cells (a ∷ args)) < 32768
      → (let cells = all_cells (a ∷ args) in
          4 + length (bind_body q.name (length cells) (columns_bytes cells [])) < 4294967296)
      → let cells = all_cells (a ∷ args) in
        (m : Message) × (message_of s (execute name (query_params (a ∷ args))) ≡ ok m)
        × (buffer m
            ≡ frame Tag.bind (bind_body q.name (length cells) (columns_bytes cells []))
              ++ (frame Tag.execute (0 ∷ big_endian 4 0) ++ frame Tag.sync []))
  unfolding message_of
  execute-frames s q name a args e v n d =
      let ps = query_params (a ∷ args) in
      let cells = all_cells (a ∷ args) in
      (
        bind_message q ps,
        rw e,
        bind_message-frames q ps (length cells) (columns_bytes cells [])
            (query_params-params a args v (omega arith)) n (no_cells cells) d,
      )
