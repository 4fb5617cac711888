-- ===== src/Transaction/Nested.antt =====
-- A failure inside a savepoint of src/commands.h.
use qbm_pgsql.Prelude.{ℕ, Bool, true, false, List, [], ◌∷◌}
use qbm_pgsql.Query.{PreparedStorage, SqlQuery, TransactionMode}
use qbm_pgsql.Transaction.{
  Script, root, begin_command, savepoint_command, end_savepoint_command, query_command, end_command,
  Command, command, Frame, Event, sent, opened,
}
use qbm_pgsql.Transaction.Popping.{Client}
use qbm_pgsql.Transaction.Atomic.{executes, commands}

module _ (storage : PreparedStorage) (mode : TransactionMode) (name x : List ℕ)
    (rest : List (List ℕ)) where
  -- The callback of the transaction: a savepoint around the text `x`, and the texts `rest`.
  abbrev pub guarded : Script
  guarded = Script.savepoint name (Script.execute_text x Script.done Script.done) (executes rest)

  abbrev at_end : Frame
  at_end = record { command = command root []; sub_commands = command end_command [] ∷ [] }

  abbrev inside : Command
  inside =
      command (savepoint_command name (Script.execute_text x Script.done Script.done))
        (SqlQuery.savepoint name ∷ [])

  abbrev behind : List Command
  behind = command (end_savepoint_command name) [] ∷ commands rest

  abbrev client : Bool → Frame → List Frame → List Event → Client
  client waiting f ps log = record {
    storage = storage;
    ready_for_query = false;
    waiting = waiting;
    current = f;
    parents = ps;
    log = log;
  }

  abbrev begun_log : List Event
  begun_log = sent (SqlQuery.begin mode) ∷ []

  abbrev saved_log : List Event
  saved_log = sent (SqlQuery.begin mode) ∷ sent (SqlQuery.savepoint name) ∷ []

  abbrev asked_log : List Event
  asked_log =
      sent (SqlQuery.begin mode) ∷ sent (SqlQuery.savepoint name) ∷ sent (SqlQuery.simple x) ∷ []

  abbrev outer : List Command → Frame
  outer queue = record { command = command (begin_command guarded) []; sub_commands = queue }

  abbrev saving : Client
  saving = client true (opened inside) (outer behind ∷ at_end ∷ []) saved_log

  abbrev asking : Client
  asking =
      client true (opened (command (query_command Script.done) (SqlQuery.simple x ∷ [])))
        (opened (record inside { queries = [] }) ∷ outer behind ∷ at_end ∷ []) asked_log
