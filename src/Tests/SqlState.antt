-- ===== src/Tests/SqlState.antt =====
-- Codes of src/sqlstates.cpp and the errors of src/error.cpp.
use qbm_pgsql.Prelude.{◌≡◌, ◌↔◌, refl, true, false, some, codes, get_elem?}
use qbm_pgsql.Notice.{NoticeMessage, empty_notice}
use qbm_pgsql.SqlState.{state_to_codestr, code_to_state}
use qbm_pgsql.SqlState.States.{Code}
use qbm_pgsql.SqlState.Laws.{Listed}
use qbm_pgsql.Errors.{
  has_error, succeeded, error_response, text_error, client_error, client_exception,
}
use qbm_pgsql.Errors.Laws.{has_error-error_response}

unique : code_to_state (codes "23505") ≡ Code.unique_violation
unfolding code_to_state
unique = refl

-- The server has had this code since its version 9.6.
unlisted : code_to_state (codes "25P03") ≡ Code.unknown_code
unfolding code_to_state
unlisted = refl

first_printed :
    get_elem? state_to_codestr 2 ≡ some (Code.dynamic_result_sets_returned, codes "0100C")
unfolding state_to_codestr
first_printed = refl

abbrev duplicate_key : NoticeMessage
duplicate_key = record empty_notice { sqlstate = codes "23505"; message = codes "duplicate key" }

has_error-error_response_example :
    ((has_error (error_response duplicate_key) ≡ true) ↔ Listed (codes "23505"))
    × (succeeded (error_response duplicate_key) ≡ false)
    × (has_error (text_error (codes "no")) ≡ false)
    × (succeeded (text_error (codes "no")) ≡ true)
    × (has_error (client_error (codes "no")) ≡ true)
    × (succeeded (client_error (codes "no")) ≡ false)
    × (has_error (client_exception (codes "no")) ≡ true)
    × (succeeded (client_exception (codes "no")) ≡ false)
has_error-error_response_example = has_error-error_response duplicate_key (codes "no")
