-- ===== src/Transaction/Popping.antt =====
-- The completion of commands: `pop_transaction` of src/transaction.cpp with the destructors of
-- src/commands.h, and the loop of `process_query` in pgsql.h that pops the failed ones.
use qbm_pgsql.Prelude.{
  ℕ, zero, suc, Bool, true, false, not, ◌&&◌, Option, none, some, ◌||◌, List, [], ◌∷◌, ◌++◌,
  if◌then◌else◌, null, Result, ok, undefined, ◌>>=◌,
}
use qbm_pgsql.Query.{PreparedStorage, SqlQuery}
use qbm_pgsql.Transaction.{
  Kind, error_command, begin_command, then_command, savepoint_command, Command, Frame, Event,
  handled, Effect, run_script, fail, on_sub_command_status,
}

-- `_current_command` with its parents, the root last; `waiting` where there is a `_current_query`.
-- `log` is what was seen so far.
pub record Client : Type 0 where
  pub storage : PreparedStorage
  pub ready_for_query : Bool
  pub waiting : Bool
  pub current : Frame
  pub parents : List Frame
  pub log : List Event

abbrev pub emit : Event → Client → Client
emit e c = record c { log = c.log ++ e ∷ [] }

-- A callback runs on the command of a frame: what it pushes goes to the end of its queue.
abbrev pub enqueue : Effect → Frame → Frame
enqueue e f = record f { sub_commands = f.sub_commands ++ e.pushed }

-- The head of the parent's queue ends the command that is done: it takes over the result and its
-- query.
abbrev pub finish_first : Bool → SqlQuery → List Command → List Command
finish_first result query [] = []
finish_first result query (e ∷ rest) =
    record e { result = result; queries = e.queries ++ query ∷ [] } ∷ rest

abbrev pub finish : Bool → SqlQuery → Frame → Frame
finish result query f = record f { sub_commands = finish_first result query f.sub_commands }

abbrev forced : Frame → Bool
forced f = elim f.sub_commands [ [] ↦ false | e ∷ rest ↦ e.force_rollback ]

-- The destructor of the derived class, with the parent `p`; `top` where the parent is the root.
unfoldable pub destroy : Kind → Bool → Bool → Frame → Frame × List Event
unfolding run_script
destroy (begin_command s) result top p =
    (finish result (if result then SqlQuery.commit else SqlQuery.rollback) p, [])
destroy (savepoint_command name s) result top p = (
  finish result
      (if result && not (forced p)
        then SqlQuery.release_savepoint name
        else SqlQuery.rollback_savepoint name)
      p,
  [],
)
destroy (then_command s) result top p =
    if p.command.result
    then (let e = run_script top s in
        (if e.returns || top then enqueue e p else fail false (enqueue e p), e.events))
    else (p, [])
destroy error_command result top p = if p.command.result then (p, []) else (p, handled ∷ [])
destroy _ result top p = (p, [])

-- The destructor of the base class empties the queue of a command: a command that is destroyed with
-- a queue has failed, so that of those in it only the handlers of errors are called, and nothing
-- but their results reaches the parents.
unfoldable pub drop_queue : List Command → List Frame → List Frame × List Event
unfolding on_sub_command_status
drop_queue [] ps = (ps, [])
drop_queue (c ∷ cs) ps =
    let (ps', events) = drop_queue cs (on_sub_command_status c.result ps) in
    (ps', (elim c.kind [ error_command ↦ handled ∷ [] | _ ↦ [] ]) ++ events)

-- What `pop_transaction` does once the parents know the result.
unfoldable pub remove : Frame → List Frame → List Frame × List Event
unfolding destroy drop_queue
remove f [] = ([], [])
remove f (p ∷ up) =
    let (p', events) = destroy f.command.kind f.command.result (null up) p in
    let (ps', more) = drop_queue f.sub_commands (p' ∷ up) in (ps', events ++ more)

-- `pop_transaction`: the first command of the queue of the first of `ps` is `f`, and is done.
unfoldable pub pop_transaction : Frame → List Frame → List Frame × List Event
unfolding on_sub_command_status remove
pop_transaction f ps = remove f (on_sub_command_status f.command.result ps)

abbrev pub Popped : Type 0
Popped = Result (Option (Frame × List Frame) × List Event)

-- The condition of the loop that pops commands; `none` where it has left the root.
unfoldable pub pop_next : List Frame → List Event → (Frame → List Frame → Popped) → Popped
pop_next [] events loop = undefined
pop_next (p ∷ up) events loop = elim p.command.result [
  | true ↦ ok (some (p, up), events)
  | false ↦ elim up [
    | [] ↦ ok (none, events)
    | g ∷ gs ↦ (do (next, more) ← loop p (g ∷ gs); ok (next, events ++ more))
  ]
]

-- The loop, on a fuel of the number of the parents.
unfoldable pub pop_failed : ℕ → Frame → List Frame → Popped
unfolding pop_transaction pop_next
pop_failed zero f ps = undefined
pop_failed (suc n) f ps =
    let (ps', events) = pop_transaction f ps in pop_next ps' events (pop_failed n)
