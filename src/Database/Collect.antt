-- ===== src/Database/Collect.antt =====
-- The commands of src/commands.h that collect the rows of a query, between the messages that
-- `on_row_description` and `on_data_row` of pgsql.h read and the result that the program gets.
pub mod Results
use qbm_pgsql.Prelude.{ℕ, none, some, List, [], ◌∷◌, ◌++◌, ◌==◌, if◌then◌else◌, Result, ok, ◌>>=◌}
use qbm_pgsql.Wire.{Host}
use qbm_pgsql.Message.{Message, FieldDescription, tag, message_length}
use qbm_pgsql.Message.Tag
use qbm_pgsql.Row.{RowData, read_row}
use qbm_pgsql.Query.{PreparedStorage, get}
use qbm_pgsql.Resultset.{ResultImpl}
use qbm_pgsql.Database.{read_description}

-- `ResultQuery`, and `QueryPrepared` with the name of its statement.
pub data Collector : Type 0 where
  result_query : Collector
  query_prepared : List ℕ → Collector

abbrev pub no_results : ResultImpl
no_results = record { row_description = []; rows = [] }

-- `QueryPrepared` does not look at the descriptions that come.
unfoldable pub on_new_row_description : Collector → List FieldDescription → ResultImpl → ResultImpl
on_new_row_description result_query desc r = record r { row_description = desc }
on_new_row_description (query_prepared name) desc r = r

unfoldable pub on_new_data_row : RowData → ResultImpl → ResultImpl
on_new_data_row row r = record r { rows = r.rows ++ row ∷ [] }

-- What the callback of success is given, when the query is done.
unfoldable pub results_of : PreparedStorage → Collector → ResultImpl → Result ResultImpl
unfolding get
results_of storage result_query r = ok r
results_of storage (query_prepared name) r = do
  q ← get storage name
  ok (record r { row_description = q.row_description })

module _ ⦃h : Host⦄ where
  -- What a message of the server does to the results of the current command.
  unfoldable pub collect : Collector → ResultImpl → Message → Result ResultImpl
  unfolding on_new_row_description on_new_data_row
  collect k r m =
      if tag m == Tag.row_description
      then (do (fields, whole) ← read_description m.unread; ok (on_new_row_description k fields r))
      else if tag m == Tag.data_row
      then (read_row (message_length m) m.unread >>= λ (row, rest). elim row [
        | none ↦ ok r
        | some row_data ↦ ok (on_new_data_row row_data r)
      ])
      else ok r

  unfoldable pub collect_all : Collector → ResultImpl → List Message → Result ResultImpl
  unfolding collect
  collect_all k r [] = ok r
  collect_all k r (m ∷ ms) = collect k r m >>= λ s. collect_all k s ms
