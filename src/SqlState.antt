-- ===== src/SqlState.antt =====
-- src/sqlstates.cpp: the five-character codes of the server's errors and the states that they name.
pub mod States
mod Parsed
mod ParsedMore
mod Printed
mod PrintedMore
pub mod Laws
use qbm_pgsql.Prelude.{
  ℕ, Bool, true, false, Option, none, some, List, [], ◌∷◌, ◌++◌, if◌then◌else◌, bytes_eq,
}
use qbm_pgsql.SqlState.States.{Code}
use qbm_pgsql.SqlState.Parsed.{completion_classes, data_classes, integrity_classes}
use qbm_pgsql.SqlState.ParsedMore.{access_classes, system_classes, foreign_classes}
use qbm_pgsql.SqlState.Printed.{
  completion_classes_printed, data_classes_printed, integrity_classes_printed,
}
use qbm_pgsql.SqlState.PrintedMore.{
  access_classes_printed, system_classes_printed, foreign_classes_printed,
}

-- `CODESTR_TO_STATE` and `STATE_TO_CODESTR`. Of two entries with one key a `std::map` keeps the
-- first.
unfoldable pub codestr_to_state : List (List ℕ × Code)
codestr_to_state =
    completion_classes
    ++ (data_classes
        ++ (integrity_classes ++ (access_classes ++ (system_classes ++ foreign_classes))))

unfoldable pub state_to_codestr : List (Code × List ℕ)
state_to_codestr =
    completion_classes_printed
    ++ (data_classes_printed
        ++ (integrity_classes_printed
            ++ (access_classes_printed ++ (system_classes_printed ++ foreign_classes_printed))))

unfoldable pub find : List ℕ → List (List ℕ × Code) → Option Code
find val [] = none
find val ((key, state) ∷ table) = if bytes_eq key val then some state else find val table

abbrev pub state_or_unknown : Option Code → Code
state_or_unknown none = Code.unknown_code
state_or_unknown (some state) = state

unfoldable pub code_to_state : List ℕ → Code
unfolding codestr_to_state find
code_to_state val = state_or_unknown (find val codestr_to_state)

-- `state != unknown_code`
abbrev pub is_known : Code → Bool
is_known Code.unknown_code = false
is_known _ = true
