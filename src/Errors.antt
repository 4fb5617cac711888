-- ===== src/Errors.antt =====
-- src/error.cpp: the errors that the client reports, with the test for one of src/transaction.cpp
-- and of the status of src/transaction.h.
pub mod Laws
use qbm_pgsql.Prelude.{ℕ, Bool, List, [], ◌++◌, codes, null}
use qbm_pgsql.Notice.{NoticeMessage}
use qbm_pgsql.SqlState.{code_to_state, is_known}
use qbm_pgsql.SqlState.States.{Code}

-- `db_error`, with the text that `what()` gives.
pub record DbError : Type 0 where
  pub message : List ℕ
  pub severity : List ℕ
  pub code : List ℕ
  pub detail : List ℕ
  pub sqlstate : Code

-- The constructors of `db_error`: from a text alone, and from what a server tells.
unfoldable pub text_error : List ℕ → DbError
text_error what_arg = record {
  message = what_arg;
  severity = [];
  code = [];
  detail = [];
  sqlstate = Code.unknown_code;
}

unfoldable pub db_error : List ℕ → List ℕ → List ℕ → List ℕ → DbError
unfolding code_to_state
db_error message s c d = record {
  message = message;
  severity = s;
  code = c;
  detail = d;
  sqlstate = code_to_state c;
}

unfoldable pub query_error : List ℕ → List ℕ → List ℕ → List ℕ → DbError
unfolding db_error
query_error = db_error

unfoldable pub client_error : List ℕ → DbError
unfolding db_error
client_error what_arg = db_error what_arg (codes "ERROR") (codes "00000") (codes "client error")

-- From an exception, by its `what()`.
unfoldable pub client_exception : List ℕ → DbError
unfolding db_error
client_exception what =
    db_error (codes "Client thrown exception: " ++ what) (codes "ERROR") (codes "00000")
      (codes "client error")

unfoldable pub null_error : List ℕ → DbError
unfolding text_error
null_error field_name = text_error (codes "Value in field " ++ (field_name ++ codes " is null"))

-- `Transaction::has_error`, and the `operator bool` of a status, which is true of a success.
unfoldable pub has_error : DbError → Bool
has_error error = is_known error.sqlstate

unfoldable pub succeeded : DbError → Bool
succeeded error = null error.code

-- The error that `Database::on_error_response` makes of the server's notice.
unfoldable pub error_response : NoticeMessage → DbError
unfolding query_error
error_response notice = query_error notice.message notice.severity notice.sqlstate notice.detail
