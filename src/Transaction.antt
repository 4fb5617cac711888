-- ===== src/Transaction.antt =====
-- The commands of src/commands.h and the tree that src/transaction.cpp and src/transaction.inl
-- build of them. A callback is the script of what it does to the transaction that it is given, and
-- acts on no other one; so only the commands from the root to the current one have begun, and a
-- command that waits in a queue has an empty queue of its own.
pub mod Popping
pub mod Engine
pub mod Session
pub mod Status
pub mod Loop
pub mod Total
pub mod Answers
pub mod Reach
pub mod Atomic
pub mod Outcome
pub mod Stall
pub mod Await
pub mod Nested
use qbm_pgsql.Prelude.{
  ℕ, zero, suc, ◌+◌, Bool, true, false, not, ◌&&◌, Option, none, some, List, [], ◌∷◌, ◌++◌,
  if◌then◌else◌, null,
}
use qbm_pgsql.Query.{SqlQuery, PreparedQuery, TransactionMode}

-- What a callback does: the calls that it makes, each with its own callback, up to its end or to
-- an exception that it throws.
pub data Script : Type 0 where
  done throw : Script
  -- `execute` of a text, with or without results; and of a prepared statement.
  execute_text : List ℕ → Script → Script → Script
  execute_prepared : SqlQuery → Script → Script → Script
  prepare : PreparedQuery → Script → Script → Script
  begin : TransactionMode → Script → Script → Script
  savepoint : List ℕ → Script → Script → Script
  success : Script → Script → Script
  error : Script → Script

pub data Kind : Type 0 where
  root end_command error_command : Kind
  begin_command query_command prepared_command then_command : Script → Kind
  prepare_command : PreparedQuery → Script → Kind
  savepoint_command : List ℕ → Script → Kind
  end_savepoint_command : List ℕ → Kind

-- A command: `force_rollback` is a field of `EndSavePoint` alone.
pub record Command : Type 0 where
  pub kind : Kind
  pub result : Bool
  pub force_rollback : Bool
  pub queries : List SqlQuery

-- A command that has begun, with its queue of commands.
pub record Frame : Type 0 where
  pub command : Command
  pub sub_commands : List Command

-- What is seen from outside: a message sent, a call of an error callback, one of a handler that
-- `error` registered, and the error that `process_query` sets at a query that is not valid.
pub data Event : Type 0 where
  sent : SqlQuery → Event
  failed handled unprocessed : Event

abbrev pub command : Kind → List SqlQuery → Command
command k qs = record { kind = k; result = true; force_rollback = false; queries = qs }

abbrev pub opened : Command → Frame
opened c = record { command = c; sub_commands = [] }

-- The calls of a script, as the commands that they push, the error callbacks that they call at
-- once, and whether the script ends without an exception.
pub record Effect : Type 0 where
  pub pushed : List Command
  pub events : List Event
  pub returns : Bool

abbrev pub pushing : List Command → Effect → Effect
pushing cs e = record e { pushed = cs ++ e.pushed }

-- `is_root` is `!_parent`: only there a transaction begins.
unfoldable pub run_script : Bool → Script → Effect
run_script is_root done = record { pushed = []; events = []; returns = true }
run_script is_root throw = record { pushed = []; events = []; returns = false }
run_script is_root (execute_text expr s rest) =
    pushing (command (query_command s) (SqlQuery.simple expr ∷ []) ∷ []) (run_script is_root rest)
run_script is_root (execute_prepared q s rest) =
    pushing (command (prepared_command s) (q ∷ []) ∷ []) (run_script is_root rest)
run_script is_root (prepare q s rest) =
    pushing (command (prepare_command q s) (SqlQuery.parse q ∷ []) ∷ []) (run_script is_root rest)
run_script is_root (begin mode s rest) =
    let e = run_script is_root rest in
    if is_root
    then pushing
        (command (begin_command s) (SqlQuery.begin mode ∷ []) ∷ command end_command [] ∷ []) e
    else record e { events = failed ∷ e.events }
run_script is_root (savepoint name s rest) =
    pushing
      (command (savepoint_command name s) (SqlQuery.savepoint name ∷ [])
        ∷ command (end_savepoint_command name) []
        ∷ [])
      (run_script is_root rest)
run_script is_root (success s rest) =
    pushing (command (then_command s) [] ∷ []) (run_script is_root rest)
run_script is_root (error rest) = pushing (command error_command [] ∷ []) (run_script is_root rest)

abbrev pub fail : Bool → Frame → Frame
fail status f = record f { command = record f.command { result = f.command.result && status } }

-- `_end->force_rollback()`: the end of a savepoint is the first command in the queue of the
-- savepoint's parent.
abbrev pub force_first : List Command → List Command
force_first [] = []
force_first (c ∷ cs) = record c { force_rollback = true } ∷ cs

abbrev pub force_end : List Frame → List Frame
force_end [] = []
force_end (f ∷ fs) = record f { sub_commands = force_first f.sub_commands } ∷ fs

-- `on_sub_command_status` by the kind of the command, `up` being what it makes of its parents:
-- nothing at the root, no further than a `Begin`, and up to the parents elsewhere.
unfoldable pub pass_status : Kind → Bool → Frame → List Frame → List Frame → List Frame
pass_status root status f fs up = f ∷ fs
pass_status (begin_command s) status f fs up = fail status f ∷ fs
pass_status (savepoint_command name s) status f fs up =
    fail status f ∷ (if status then up else force_end up)
pass_status _ status f fs up = fail status f ∷ up

unfoldable pub on_sub_command_status : Bool → List Frame → List Frame
unfolding pass_status
on_sub_command_status status [] = []
on_sub_command_status status (f ∷ fs) =
    pass_status f.command.kind status f fs (on_sub_command_status status fs)
