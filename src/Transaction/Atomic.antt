-- ===== src/Transaction/Atomic.antt =====
-- A transaction of src/commands.h from the program's call to the server's last answer.
use qbm_pgsql.Prelude.{
  ℕ, suc, ◌-◌, ◌≤◌, ◌≡◌, refl, ap, ◌∙◌, Bool, true, false, List, [], ◌∷◌, ◌++◌, Result, ok, ◌>>=◌,
  arith, append_assoc, append-nil,
}
use qbm_pgsql.Query.{PreparedStorage, SqlQuery}
use qbm_pgsql.Transaction.{
  Script, root, begin_command, query_command, end_command, Command, command, Frame, Event, sent,
  failed, opened,
}
use qbm_pgsql.Transaction.Popping.{Client, drop_queue}
use qbm_pgsql.Transaction.Engine.{on_success_query, process_query}
use qbm_pgsql.Transaction.Session.{
  idle, on_error_response, on_ready_for_query, next_query, note_ready, client_weight, kind_weight,
}

-- A callback that executes some texts, one after another.
abbrev pub executes : List (List ℕ) → Script
executes [] = Script.done
executes (x ∷ xs) = Script.execute_text x Script.done (executes xs)

-- The answers of the server: the query that waits succeeds, or fails with an error first.
abbrev pub serve : List Bool → Client → Result Client
serve [] c = ok c
serve (true ∷ rest) c = on_ready_for_query c >>= serve rest
serve (false ∷ rest) c = on_ready_for_query (on_error_response c) >>= serve rest

abbrev pub commands : List (List ℕ) → List Command
commands [] = []
commands (x ∷ xs) = command (query_command Script.done) (SqlQuery.simple x ∷ []) ∷ commands xs

-- The client while the text `x` of a transaction waits, before the texts `xs`.
abbrev pub executing : PreparedStorage → Script → List ℕ → List (List ℕ) → List Event → Client
executing storage s x xs log = record {
  storage = storage;
  ready_for_query = false;
  waiting = true;
  current = opened (command (query_command Script.done) (SqlQuery.simple x ∷ []));
  parents =
      record { command = command (begin_command s) []; sub_commands = commands xs }
      ∷ record { command = command root []; sub_commands = command end_command [] ∷ [] }
      ∷ [];
  log = log;
}

-- The client while the end of a transaction waits.
abbrev pub ending : PreparedStorage → Bool → SqlQuery → List Event → Client
ending storage result q log = record {
  storage = storage;
  ready_for_query = false;
  waiting = true;
  current =
      opened
        (record { kind = end_command; result = result; force_rollback = false; queries = q ∷ [] });
  parents = opened (command root []) ∷ [];
  log = log;
}

abbrev pub rested : PreparedStorage → List Event → Client
rested storage log = record (idle storage) { log = log }

-- Three rounds of the search are always there.
pub next_query_at :
    (c : Client) (r : Result (Bool × Client))
    → 2 ≤ client_weight c
    → ((n : ℕ) → process_query (suc (suc (suc n))) c ≡ r)
    → next_query c ≡ r
next_query_at c r h k =
    let e : suc (client_weight c) ≡ suc (suc (suc (client_weight c - 2))) = omega arith in
    ap (λ f. process_query f c) e ∙ k (client_weight c - 2)

pub on_ready_via :
    (c e d : Client) (b : Bool)
    → on_success_query c ≡ e
    → 2 ≤ client_weight e
    → ((n : ℕ) → process_query (suc (suc (suc n))) e ≡ ok (b, d))
    → on_ready_for_query c ≡ note_ready (b, d)
unfolding on_ready_for_query
on_ready_via c e d b s h k =
    ap (λ x. next_query x >>= note_ready) s
    ∙ ap (λ r. r >>= note_ready) (next_query_at e (ok (b, d)) h k)

on_ready_at :
    (c d : Client) (b : Bool)
    → 2 ≤ client_weight (on_success_query c)
    → ((n : ℕ) → process_query (suc (suc (suc n))) (on_success_query c) ≡ ok (b, d))
    → on_ready_for_query c ≡ note_ready (b, d)
on_ready_at c d b h k = on_ready_via c (on_success_query c) d b refl h k

pub executing_next :
    (storage : PreparedStorage) (s : Script) (x y : List ℕ) (ys : List (List ℕ)) (log : List Event)
    → on_ready_for_query (executing storage s x (y ∷ ys) log)
      ≡ ok (executing storage s y ys (log ++ sent (SqlQuery.simple y) ∷ []))
unfolding on_success_query process_query kind_weight
executing_next storage s x y ys log =
    on_ready_at (executing storage s x (y ∷ ys) log)
      (executing storage s y ys (log ++ sent (SqlQuery.simple y) ∷ [])) true (omega arith)
      (λ n. simp append-nil)

pub executing_last :
    (storage : PreparedStorage) (s : Script) (x : List ℕ) (log : List Event)
    → on_ready_for_query (executing storage s x [] log)
      ≡ ok (ending storage true SqlQuery.commit (log ++ sent SqlQuery.commit ∷ []))
unfolding on_success_query process_query kind_weight
executing_last storage s x log =
    on_ready_at (executing storage s x [] log)
      (ending storage true SqlQuery.commit (log ++ sent SqlQuery.commit ∷ [])) true (omega arith)
      (λ n. simp append-nil)

pub ending_commit :
    (storage : PreparedStorage) (log : List Event)
    → on_ready_for_query (ending storage true SqlQuery.commit log) ≡ ok (rested storage log)
unfolding on_success_query process_query kind_weight
ending_commit storage log =
    on_ready_at (ending storage true SqlQuery.commit log)
      (record (rested storage log) { ready_for_query = false }) false (omega arith)
      (λ n. simp append-nil)

pub ending_rollback :
    (storage : PreparedStorage) (log : List Event)
    → on_ready_for_query (ending storage false SqlQuery.rollback log)
      ≡ ok (rested storage (log ++ failed ∷ []))
unfolding on_success_query process_query kind_weight
ending_rollback storage log =
    on_ready_at (ending storage false SqlQuery.rollback log)
      (record (rested storage (log ++ failed ∷ [])) { ready_for_query = false }) false (omega arith)
      (λ n. simp append-nil)

-- The texts that are left are dropped without an event.
pub drop_queue-commands :
    (xs : List (List ℕ)) (q : List Command)
    → let f : Frame = record { command = command root []; sub_commands = q } in
      drop_queue (commands xs) (f ∷ []) ≡ (f ∷ [], [])
unfolding drop_queue
drop_queue-commands [] q = refl
drop_queue-commands (x ∷ xs) q = rw (drop_queue-commands xs q) refl

pub executing_fails :
    (storage : PreparedStorage) (s : Script) (x : List ℕ) (xs : List (List ℕ)) (log : List Event)
    → on_ready_for_query (on_error_response (executing storage s x xs log))
      ≡ ok (ending storage false SqlQuery.rollback (log ++ failed ∷ sent SqlQuery.rollback ∷ []))
unfolding on_success_query process_query kind_weight on_error_response
executing_fails storage s x xs log =
    on_ready_at (on_error_response (executing storage s x xs log))
      (ending storage false SqlQuery.rollback (log ++ failed ∷ sent SqlQuery.rollback ∷ [])) true
      (omega arith)
      (λ n. simp (
        drop_queue-commands xs (
            record {
              kind = end_command;
              result = false;
              force_rollback = false;
              queries = SqlQuery.rollback ∷ [];
            }
            ∷ []),
        append-nil,
        append_assoc,
      ))

abbrev pub statements : List (List ℕ) → List Event
statements [] = []
statements (x ∷ xs) = sent (SqlQuery.simple x) ∷ statements xs

abbrev pub successes : List (List ℕ) → List Bool
successes [] = []
successes (x ∷ xs) = true ∷ successes xs

pub executing_all :
    (storage : PreparedStorage) (s : Script) (x : List ℕ) (xs : List (List ℕ)) (log : List Event)
    → serve (true ∷ successes xs) (executing storage s x xs log)
      ≡ ok (
          ending storage true SqlQuery.commit (log ++ (statements xs ++ sent SqlQuery.commit ∷ [])))
executing_all storage s x [] log = rw (executing_last storage s x log) refl
executing_all storage s x (y ∷ ys) log =
    rw (executing_next storage s x y ys log)
      (executing_all storage s y ys (log ++ sent (SqlQuery.simple y) ∷ []) ∙ simp append_assoc)

pub executing_until :
    (storage : PreparedStorage) (s : Script) (x : List ℕ) (xs : List (List ℕ)) (y : List ℕ)
    (ys : List (List ℕ)) (log : List Event)
    → serve (true ∷ successes xs) (executing storage s x (xs ++ y ∷ ys) log)
      ≡ ok (executing storage s y ys (log ++ (statements xs ++ sent (SqlQuery.simple y) ∷ [])))
executing_until storage s x [] y ys log = rw (executing_next storage s x y ys log) refl
executing_until storage s x (z ∷ zs) y ys log =
    rw (executing_next storage s x z (zs ++ y ∷ ys) log) (
      executing_until storage s z zs y ys (log ++ sent (SqlQuery.simple z) ∷ [])
      ∙ simp append_assoc)
