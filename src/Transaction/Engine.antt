-- ===== src/Transaction/Engine.antt =====
-- `Database` of pgsql.h as it drives the commands: `process_query` and its handlers, with the
-- completion of commands in src/transaction.cpp and src/commands.h.
use qbm_pgsql.Prelude.{
  ℕ, zero, suc, Bool, true, false, none, some, List, [], ◌∷◌, ◌++◌, if◌then◌else◌, length, drop,
  Result, ok, undefined, ◌>>=◌,
}
use qbm_pgsql.Query.{SqlQuery, is_valid, push}
use qbm_pgsql.Transaction.{
  Script, Kind, root, end_command, error_command, begin_command, query_command, prepared_command,
  then_command, prepare_command, savepoint_command, end_savepoint_command, Command, Frame, Event,
  sent, failed, unprocessed, opened, run_script, fail, force_end, on_sub_command_status,
}
use qbm_pgsql.Transaction.Popping.{Client, emit, enqueue, pop_failed}

-- `next_transaction`: the command at the front of the queue begins.
unfoldable pub descend : List Command → Client → Client
descend [] c = c
descend (s ∷ rest) c = record c {
  current = opened s;
  parents = record c.current { sub_commands = rest } ∷ c.parents;
}

unfoldable pub next_transaction : Client → Client
unfolding descend
next_transaction c = descend c.current.sub_commands c

abbrev pub pop_query : Client → Client
pop_query c = record c {
  waiting = false;
  current = record c.current {
    command = record c.current.command { queries = drop 1 c.current.command.queries };
  };
}

-- `_result = false` in a handler, and `_parent->on_sub_command_status(false)`.
abbrev pub fail_current : Client → Client
fail_current c = record c { current = fail false c.current }

abbrev pub fail_parents : Client → Client
fail_parents c = record c { parents = on_sub_command_status false c.parents }

abbrev pub force_current : Client → Client
force_current c = record c { parents = force_end c.parents }

-- The error callback of the query of a command.
unfoldable pub query_on_error : Kind → Client → Client
unfolding on_sub_command_status
query_on_error (query_command s) c = fail_parents (emit failed (fail_current c))
query_on_error (savepoint_command name s) c = emit failed (force_current (fail_current c))
query_on_error (begin_command s) c = emit failed c
query_on_error (prepared_command s) c = emit failed c
query_on_error (prepare_command q s) c = emit failed c
query_on_error end_command c = emit failed c
query_on_error (end_savepoint_command name) c = emit failed c
query_on_error root c = c
query_on_error error_command c = c
query_on_error (then_command s) c = c

-- A success callback: its script, then what the handler does on an exception.
abbrev pub ran : Script → Client → Client
ran s c =
    let e = run_script false s in
    record c { current = enqueue e c.current; log = c.log ++ e.events }

abbrev pub call : Script → (Client → Client) → Client → Client
call s caught c = if (run_script false s).returns then ran s c else caught (ran s c)

-- What the handlers do on an exception of the callback.
abbrev pub caught : Client → Client
caught c = emit failed (fail_current c)

abbrev pub caught_savepoint : Client → Client
caught_savepoint c = emit failed (force_current (fail_current c))

abbrev pub caught_query : Client → Client
caught_query c = fail_parents (emit failed (fail_current c))

-- The success callback of a query: of the ends of transactions and savepoints, only a rollback
-- calls its error callback.
unfoldable pub query_on_success : Kind → SqlQuery → Client → Client
unfolding run_script push on_sub_command_status
query_on_success (begin_command s) q c = call s caught c
query_on_success (savepoint_command name s) q c = call s caught_savepoint c
query_on_success (query_command s) q c = call s caught_query c
query_on_success (prepared_command s) q c = call s caught c
query_on_success (prepare_command p s) q c =
    call s caught (record c { storage = (push c.storage p).0 })
query_on_success end_command q c = elim q [ SqlQuery.rollback ↦ emit failed c | _ ↦ c ]
query_on_success (end_savepoint_command name) q c = elim q [
  | SqlQuery.rollback_savepoint n ↦ emit failed c
  | _ ↦ c
]
query_on_success root q c = c
query_on_success error_command q c = c
query_on_success (then_command s) q c = c

-- With the query that waits, if any.
unfoldable pub answer : Bool → List SqlQuery → Client → Client
unfolding query_on_success
answer false queries c = c
answer true [] c = c
answer true (q ∷ qs) c = query_on_success c.current.command.kind q (pop_query c)

unfoldable pub on_success_query : Client → Client
unfolding answer
on_success_query c = answer c.waiting c.current.command.queries c

unfoldable pub refuse : Bool → Client → Client
unfolding query_on_error
refuse false c = c
refuse true c = query_on_error c.current.command.kind (pop_query (fail_current c))

unfoldable pub on_error_query : Client → Client
unfolding refuse
on_error_query c = refuse c.waiting c

abbrev pub ready : Bool × Client → Bool × Client
ready (true, c) = (true, c)
ready (false, c) = (true, record c { ready_for_query = true })

abbrev pub resume : Client → Frame × List Frame → List Event → Client
resume c (p, ps) events = record c { current = p; parents = ps; log = c.log ++ events }

-- The two branches of `process_query` on a query that is there, `loop` being its call of itself.
unfoldable pub send_or_refuse :
    Bool → SqlQuery → Client → (Client → Result (Bool × Client)) → Result (Bool × Client)
unfolding on_error_query
send_or_refuse true q c loop = ok (true, emit (sent q) (record c { waiting = true }))
send_or_refuse false q c loop = do
  r ← loop (on_error_query (emit unprocessed (record c { waiting = true })))
  ok (ready r)

-- The branches on a command without a query: its parents are asked for the next one. To go on
-- without a command is undefined.
unfoldable pub leave :
    List Frame → Client → (Client → Result (Bool × Client)) → Result (Bool × Client)
unfolding pop_failed
leave [] c loop = ok (false, record c { waiting = false })
leave (p ∷ ps) c loop = do
  (next, events) ← pop_failed (length (p ∷ ps)) c.current (p ∷ ps)
  elim next [ none ↦ undefined | some at ↦ loop (resume (record c { waiting = false }) at events) ]

unfoldable pub advance :
    List SqlQuery → Client → (Client → Result (Bool × Client)) → Result (Bool × Client)
unfolding send_or_refuse leave is_valid
advance (q ∷ qs) c loop = send_or_refuse (is_valid c.storage q) q c loop
advance [] c loop = leave c.parents c loop

-- `process_query`, on fuel: whether a query was sent.
unfoldable pub process_query : ℕ → Client → Result (Bool × Client)
unfolding next_transaction advance
process_query zero c = undefined
process_query (suc fuel) c =
    let c' = next_transaction (record c { ready_for_query = false }) in
    advance c'.current.command.queries c' (process_query fuel)
