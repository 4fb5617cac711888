-- ===== src/Transaction/Outcome.antt =====
-- What a transaction of src/commands.h sends, whatever the server answers to its texts.
use qbm_pgsql.Prelude.{
  ℕ, ◌≡◌, refl, ap, Bool, true, false, List, [], ◌∷◌, ◌++◌, Result, ok, throws, undefined, ◌>>=◌,
  arith, append_assoc,
}
use qbm_pgsql.Query.{PreparedStorage, SqlQuery, TransactionMode}
use qbm_pgsql.Transaction.{
  Script, root, begin_command, end_command, command, sent, failed, opened, run_script,
}
use qbm_pgsql.Transaction.Popping.{Client}
use qbm_pgsql.Transaction.Engine.{on_success_query, process_query}
use qbm_pgsql.Transaction.Session.{
  idle, submit, push_all, push_transaction, on_error_response, on_ready_for_query, kind_weight,
}
use qbm_pgsql.Transaction.Atomic.{
  executes, serve, commands, executing, ending, rested, statements, successes, next_query_at,
  on_ready_via, executing_fails, ending_commit, ending_rollback, executing_all, executing_until,
}

-- The client while the beginning of a transaction waits.
abbrev pub beginning : PreparedStorage → TransactionMode → Script → Client
beginning storage mode s = record {
  storage = storage;
  ready_for_query = false;
  waiting = true;
  current = opened (command (begin_command s) (SqlQuery.begin mode ∷ []));
  parents = record { command = command root []; sub_commands = command end_command [] ∷ [] } ∷ [];
  log = sent (SqlQuery.begin mode) ∷ [];
}

pub submit-beginning :
    (storage : PreparedStorage) (mode : TransactionMode) (s : Script)
    → submit (Script.begin mode s Script.done) (idle storage) ≡ ok (beginning storage mode s)
unfolding submit push_transaction
submit-beginning storage mode s =
    let first = record (idle storage) {
      current = record (idle storage).current {
        sub_commands = command (begin_command s) (SqlQuery.begin mode ∷ []) ∷ [];
      };
    } in
    let d = record (beginning storage mode s) { parents = opened (command root []) ∷ [] } in
    ap (λ r. (r >>= λ bd. ok (bd.1)) >>= push_all (command end_command [] ∷ []))
      (next_query_at first (ok (true, d)) (omega arith) (λ n. refl))

pub run_script-executes :
    (xs : List (List ℕ))
    → run_script false (executes xs) ≡ record { pushed = commands xs; events = []; returns = true }
unfolding run_script
run_script-executes [] = refl
run_script-executes (x ∷ xs) = rw (run_script-executes xs) refl

-- The client once the transaction has begun, before its texts are asked for.
abbrev entered : PreparedStorage → TransactionMode → List (List ℕ) → Client
entered storage mode xs = record (beginning storage mode (executes xs)) {
  waiting = false;
  current = record {
    command = command (begin_command (executes xs)) [];
    sub_commands = commands xs;
  };
}

on_success_query-entered :
    (storage : PreparedStorage) (mode : TransactionMode) (xs : List (List ℕ))
    → on_success_query (beginning storage mode (executes xs)) ≡ entered storage mode xs
unfolding on_success_query
on_success_query-entered storage mode xs =
    let e = run_script-executes xs in
    simp (ap (λ f. f.pushed) e, ap (λ f. f.events) e, ap (λ f. f.returns) e)

begun :
    (storage : PreparedStorage) (mode : TransactionMode) (x : List ℕ) (xs : List (List ℕ))
    → on_ready_for_query (beginning storage mode (executes (x ∷ xs)))
      ≡ ok (
          executing storage
            (executes (x ∷ xs))
            x
            xs
            (sent (SqlQuery.begin mode) ∷ sent (SqlQuery.simple x) ∷ []))
unfolding process_query kind_weight
begun storage mode x xs =
    on_ready_via (beginning storage mode (executes (x ∷ xs))) (entered storage mode (x ∷ xs))
      (executing storage (executes (x ∷ xs)) x xs
        (sent (SqlQuery.begin mode) ∷ sent (SqlQuery.simple x) ∷ []))
      true (on_success_query-entered storage mode (x ∷ xs)) (omega arith) (λ n. refl)

begun_empty :
    (storage : PreparedStorage) (mode : TransactionMode)
    → on_ready_for_query (beginning storage mode (executes []))
      ≡ ok (
          ending storage true SqlQuery.commit
            (sent (SqlQuery.begin mode) ∷ sent SqlQuery.commit ∷ []))
unfolding process_query kind_weight
begun_empty storage mode =
    on_ready_via (beginning storage mode (executes [])) (entered storage mode [])
      (ending storage true SqlQuery.commit (sent (SqlQuery.begin mode) ∷ sent SqlQuery.commit ∷ []))
      true (on_success_query-entered storage mode []) (omega arith) (λ n. refl)

bind_then :
    {A B C : Type 0} (r : Result A) (k : A → Result C) (f : A → Result B) (g : B → Result C)
    → ((a : A) → k a ≡ (f a >>= g))
    → (r >>= k) ≡ ((r >>= f) >>= g)
bind_then (ok a) k f g h = h a
bind_then (throws e) k f g h = refl
bind_then undefined k f g h = refl

serve-append : (us vs : List Bool) (c : Client) → serve (us ++ vs) c ≡ (serve us c >>= serve vs)
serve-append [] vs c = refl
serve-append (true ∷ us) vs c =
    bind_then (on_ready_for_query c) (serve (us ++ vs)) (serve us) (serve vs) (serve-append us vs)
serve-append (false ∷ us) vs c =
    bind_then (on_ready_for_query (on_error_response c)) (serve (us ++ vs)) (serve us) (serve vs)
      (serve-append us vs)

-- A transaction whose texts all succeed is begun, its texts are sent in order, it is committed, and
-- the client is ready again with nothing left.
pub transaction_commits :
    (storage : PreparedStorage) (mode : TransactionMode) (xs : List (List ℕ))
    → (submit (Script.begin mode (executes xs) Script.done) (idle storage)
        >>= serve (true ∷ (successes xs ++ true ∷ [])))
      ≡ ok (
          rested storage
            (sent (SqlQuery.begin mode) ∷ (statements xs ++ sent SqlQuery.commit ∷ [])))
transaction_commits storage mode [] =
    rw (submit-beginning storage mode (executes []), begun_empty storage mode)
      (rw (ending_commit storage (sent (SqlQuery.begin mode) ∷ sent SqlQuery.commit ∷ [])) refl)
transaction_commits storage mode (x ∷ xs) =
    let opening = sent (SqlQuery.begin mode) ∷ sent (SqlQuery.simple x) ∷ [] in
    rw
      (
        submit-beginning storage mode (executes (x ∷ xs)),
        begun storage mode x xs,
        serve-append (true ∷ successes xs) (true ∷ [])
            (executing storage (executes (x ∷ xs)) x xs opening),
        executing_all storage (executes (x ∷ xs)) x xs opening,
        ending_commit storage (opening ++ (statements xs ++ sent SqlQuery.commit ∷ [])),
      )
      refl

-- A transaction with a text that fails, after texts `xs` that succeed, is rolled back: the texts
-- behind it are never sent, the error is reported, and again when the rollback is done, and the
-- client is ready again with nothing left.
pub transaction_rolls_back :
    (storage : PreparedStorage) (mode : TransactionMode) (xs : List (List ℕ)) (y : List ℕ)
    (ys : List (List ℕ))
    → (submit (Script.begin mode (executes (xs ++ y ∷ ys)) Script.done) (idle storage)
        >>= serve (true ∷ (successes xs ++ false ∷ true ∷ [])))
      ≡ ok (
          rested storage (
            sent (SqlQuery.begin mode)
            ∷ (statements xs
                ++ sent (SqlQuery.simple y) ∷ failed ∷ sent SqlQuery.rollback ∷ failed ∷ [])))
transaction_rolls_back storage mode [] y ys =
    let opening = sent (SqlQuery.begin mode) ∷ sent (SqlQuery.simple y) ∷ [] in
    rw
      (
        submit-beginning storage mode (executes (y ∷ ys)),
        begun storage mode y ys,
        executing_fails storage (executes (y ∷ ys)) y ys opening,
        ending_rollback storage (opening ++ failed ∷ sent SqlQuery.rollback ∷ []),
      )
      refl
transaction_rolls_back storage mode (x ∷ xs) y ys =
    let opening = sent (SqlQuery.begin mode) ∷ sent (SqlQuery.simple x) ∷ [] in
    let all = executes (x ∷ (xs ++ y ∷ ys)) in
    let log = opening ++ (statements xs ++ sent (SqlQuery.simple y) ∷ []) in
    rw
      (
        submit-beginning storage mode all,
        begun storage mode x (xs ++ y ∷ ys),
        serve-append (true ∷ successes xs) (false ∷ true ∷ [])
            (executing storage all x (xs ++ y ∷ ys) opening),
        executing_until storage all x xs y ys opening,
        executing_fails storage all y ys log,
        ending_rollback storage (log ++ failed ∷ sent SqlQuery.rollback ∷ []),
      )
      (simp append_assoc)
