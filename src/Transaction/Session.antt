-- ===== src/Transaction/Session.antt =====
-- `Database` of pgsql.h from outside: the calls of the program and the messages of the server.
use qbm_pgsql.Prelude.{
  ℕ, suc, ◌+◌, Bool, true, false, List, [], ◌∷◌, ◌++◌, if◌then◌else◌, length, Result, ok, ◌>>=◌,
}
use qbm_pgsql.Message.{FieldDescription}
use qbm_pgsql.Query.{PreparedStorage}
use qbm_pgsql.Transaction.{
  Script, Kind, root, end_command, error_command, begin_command, query_command, prepared_command,
  then_command, prepare_command, savepoint_command, end_savepoint_command, Command, Frame, command,
  opened, run_script,
}
use qbm_pgsql.Transaction.Popping.{Client}
use qbm_pgsql.Transaction.Engine.{fail_current, on_error_query, on_success_query, process_query}

-- How many rounds a command, a frame and a client can still take: the fuel of `process_query`.
unfoldable pub script_weight : Script → ℕ
script_weight (Script.execute_text expr s rest) = 2 + script_weight s + script_weight rest
script_weight (Script.execute_prepared q s rest) = 2 + script_weight s + script_weight rest
script_weight (Script.prepare q s rest) = 2 + script_weight s + script_weight rest
script_weight (Script.begin mode s rest) = 4 + script_weight s + script_weight rest
script_weight (Script.savepoint name s rest) = 4 + script_weight s + script_weight rest
script_weight (Script.success s rest) = 1 + script_weight s + script_weight rest
script_weight (Script.error rest) = 1 + script_weight rest
script_weight Script.done = 0
script_weight Script.throw = 0

unfoldable pub kind_weight : Kind → ℕ
unfolding script_weight
kind_weight (begin_command s) = 1 + script_weight s
kind_weight (savepoint_command name s) = 1 + script_weight s
kind_weight (query_command s) = script_weight s
kind_weight (prepared_command s) = script_weight s
kind_weight (then_command s) = script_weight s
kind_weight (prepare_command q s) = script_weight s
kind_weight root = 0
kind_weight end_command = 0
kind_weight error_command = 0
kind_weight (end_savepoint_command name) = 0

abbrev pub weight : Command → ℕ
weight c = 1 + length c.queries + kind_weight c.kind

abbrev pub queue_weight : List Command → ℕ
queue_weight [] = 0
queue_weight (c ∷ cs) = weight c + queue_weight cs

abbrev pub frame_weight : Frame → ℕ
frame_weight f = weight f.command + queue_weight f.sub_commands

abbrev pub parents_weight : List Frame → ℕ
parents_weight [] = 0
parents_weight (f ∷ fs) = frame_weight f + parents_weight fs

abbrev pub client_weight : Client → ℕ
client_weight c = frame_weight c.current + parents_weight c.parents

abbrev pub next_query : Client → Result (Bool × Client)
next_query c = process_query (suc (client_weight c)) c

-- `push_transaction` of the root.
abbrev pub at_root : Command → Frame → List Frame → Frame × List Frame
at_root s f [] = (record f { sub_commands = f.sub_commands ++ s ∷ [] }, [])
at_root s f (p ∷ ps) = let (p', ps') = at_root s p ps in (f, p' ∷ ps')

-- `process_if_query_ready`, on the flag `_ready_for_query`; what `process_query` returns is not
-- looked at.
unfoldable pub process_if_query_ready : Bool → Client → Result Client
unfolding process_query kind_weight
process_if_query_ready false c = ok c
process_if_query_ready true c = next_query c >>= λ (found, d). ok d

unfoldable pub push_transaction : Command → Client → Result Client
unfolding process_if_query_ready
push_transaction s c =
    let (f, ps) = at_root s c.current c.parents in
    process_if_query_ready c.ready_for_query (record c { current = f; parents = ps })

unfoldable pub push_all : List Command → Client → Result Client
unfolding push_transaction
push_all [] c = ok c
push_all (s ∷ rest) c = push_transaction s c >>= push_all rest

-- The calls of a script on the database.
unfoldable pub submit : Script → Client → Result Client
unfolding push_all run_script
submit s c = let e = run_script true s in push_all e.pushed (record c { log = c.log ++ e.events })

unfoldable pub on_error_response : Client → Client
unfolding on_error_query
on_error_response c = on_error_query c

-- `if (!process_query(...)) _ready_for_query = true;`
abbrev pub note_ready : Bool × Client → Result Client
note_ready (found, c) = ok (if found then c else record c { ready_for_query = true })

unfoldable pub on_ready_for_query : Client → Result Client
unfolding on_success_query process_query kind_weight
on_ready_for_query c = next_query (on_success_query c) >>= note_ready

-- A description is kept by the command that prepares a statement, in the statement.
abbrev pub describe : List FieldDescription → Kind → Kind
describe fields (prepare_command q s) = prepare_command (record q { row_description = fields }) s
describe fields root = root
describe fields end_command = end_command
describe fields error_command = error_command
describe fields (begin_command s) = begin_command s
describe fields (query_command s) = query_command s
describe fields (prepared_command s) = prepared_command s
describe fields (then_command s) = then_command s
describe fields (savepoint_command name s) = savepoint_command name s
describe fields (end_savepoint_command name) = end_savepoint_command name

abbrev described : List FieldDescription → Client → Client
described fields c = record c {
  current = record c.current {
    command = record c.current.command { kind = describe fields c.current.command.kind };
  };
}

-- `on_row_description` and `on_data_row`: whether the message was read whole; what a command does
-- with a row is not seen here.
unfoldable pub on_row_description : List FieldDescription → Bool → Client → Client
on_row_description fields whole c = described fields (if whole then c else fail_current c)

unfoldable pub on_data_row : Bool → Client → Client
on_data_row whole c = if whole then c else fail_current c

-- A client that has authenticated and has nothing to do.
abbrev pub idle : PreparedStorage → Client
idle storage = record {
  storage = storage;
  ready_for_query = true;
  waiting = false;
  current = opened (command root []);
  parents = [];
  log = [];
}
