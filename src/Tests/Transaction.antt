-- ===== src/Tests/Transaction.antt =====
-- Transactions of src/commands.h on small inputs.
use qbm_pgsql.Prelude.{
  ℕ, ◌≡◌, refl, not, null, true, false, List, [], ◌∷◌, ◌++◌, codes, ok, ◌>>=◌, arith,
}
use qbm_pgsql.Query.{TransactionMode, read_committed, SqlQuery}
use qbm_pgsql.Transaction.{
  Script, sent, failed, handled, run_script, opened, command, query_command, root,
}
use qbm_pgsql.Transaction.Await.{awaits, awaits-finished}
use qbm_pgsql.Transaction.Popping.{Client}
use qbm_pgsql.Transaction.Engine.{process_query}
use qbm_pgsql.Transaction.Session.{
  idle, submit, on_ready_for_query, on_error_response, push_transaction, kind_weight,
}
use qbm_pgsql.Transaction.Total.{Ends, IsSteady, process_query-Ends}
use qbm_pgsql.Transaction.Reach.{starts, steps, submits, fails, is_ready, reached_goes}
use qbm_pgsql.Transaction.Atomic.{executes, serve, rested, statements}
use qbm_pgsql.Transaction.Outcome.{
  beginning, submit-beginning, transaction_commits, transaction_rolls_back,
}
use qbm_pgsql.Transaction.Stall.{then_stalls}

abbrev mode : TransactionMode
mode = record { isolation = read_committed; read_only = false; deferrable = false }

abbrev texts : List (List ℕ)
texts = codes "insert a" ∷ codes "insert b" ∷ []

process_query-Ends_example : Ends (process_query 5 (idle []))
unfolding kind_weight
process_query-Ends_example = process_query-Ends 5 (idle []) (omega arith) (refl, refl, refl)

-- A transaction has been asked for, and the server answered with an error.
abbrev refused : Client
refused = on_error_response (beginning [] mode (executes texts))

reached_goes_example :
    ((s : Script) → (d : Client) × (submit s refused ≡ ok d))
    × ((d : Client) × (on_ready_for_query refused ≡ ok d))
    × IsSteady refused
reached_goes_example = reached_goes [] refused (
    steps (beginning [] mode (executes texts)) refused
      (steps (idle []) (beginning [] mode (executes texts)) starts (
        submits (Script.begin mode (executes texts) Script.done) (idle [])
          (beginning [] mode (executes texts)) (submit-beginning [] mode (executes texts))))
      (fails (beginning [] mode (executes texts))))

transaction_commits_example :
    (submit (Script.begin mode (executes texts) Script.done) (idle [])
      >>= serve (true ∷ true ∷ true ∷ true ∷ []))
    ≡ ok (rested [] (sent (SqlQuery.begin mode) ∷ (statements texts ++ sent SqlQuery.commit ∷ [])))
transaction_commits_example = transaction_commits [] mode texts

transaction_rolls_back_example :
    (submit (Script.begin mode (executes (texts ++ codes "bad" ∷ texts)) Script.done) (idle [])
      >>= serve (true ∷ true ∷ true ∷ false ∷ true ∷ []))
    ≡ ok (
        rested [] (
          sent (SqlQuery.begin mode)
          ∷ (statements texts
              ++ sent (SqlQuery.simple (codes "bad"))
                ∷ failed
                ∷ sent SqlQuery.rollback
                ∷ failed
                ∷ [])))
transaction_rolls_back_example = transaction_rolls_back [] mode texts (codes "bad") texts

then_stalls_example :
    (c : Client) × (submit (Script.success Script.done Script.done) (idle []) ≡ ok c)
    × (c.waiting ≡ false)
    × ((d : Client) × (submit (Script.execute_text (codes "select 1") Script.done Script.done) c
          ≡ ok d)
        × (d.waiting ≡ false)
        × (d.log
            ≡ c.log
              ++ (run_script true
                  (Script.execute_text (codes "select 1") Script.done Script.done)).events)
        × (awaits d
            ≡ not (
                null
                  (run_script true
                    (Script.execute_text (codes "select 1") Script.done Script.done)).pushed)))
then_stalls_example =
    then_stalls [] (Script.execute_text (codes "select 1") Script.done Script.done)

-- A handler of errors is called when a query before it has failed.
handler_is_called :
    (submit
        (Script.begin mode
          (Script.execute_text (codes "bad") Script.done (Script.error Script.done))
          Script.done)
        (idle [])
      >>= serve (true ∷ false ∷ true ∷ []))
    ≡ ok (
        rested [] (
          sent (SqlQuery.begin mode)
          ∷ sent (SqlQuery.simple (codes "bad"))
          ∷ failed
          ∷ handled
          ∷ sent SqlQuery.rollback
          ∷ failed
          ∷ []))
unfolding submit push_transaction on_ready_for_query on_error_response
handler_is_called = refl

-- A text is executed, and then the server is ready.
abbrev asked : Client
asked = record {
  storage = [];
  ready_for_query = false;
  waiting = true;
  current = opened (command (query_command Script.done) (SqlQuery.simple (codes "a") ∷ []));
  parents = opened (command root []) ∷ [];
  log = sent (SqlQuery.simple (codes "a")) ∷ [];
}

submit-asked : submit (Script.execute_text (codes "a") Script.done Script.done) (idle []) ≡ ok asked
unfolding submit push_transaction
submit-asked = refl

on_ready_for_query-asked : on_ready_for_query asked ≡ ok (rested [] asked.log)
unfolding on_ready_for_query
on_ready_for_query-asked = refl

awaits-finished_example :
    ((rested [] asked.log).parents ≡ [])
    × ((rested [] asked.log).current.sub_commands ≡ [])
    × ((rested [] asked.log).waiting ≡ false)
unfolding awaits
awaits-finished_example =
    awaits-finished [] (rested [] asked.log)
      (steps asked (rested [] asked.log)
        (steps (idle []) asked starts (
          submits (Script.execute_text (codes "a") Script.done Script.done) (idle []) asked
            submit-asked))
        (is_ready asked (rested [] asked.log) on_ready_for_query-asked))
      refl
