-- ===== src/Transaction/Stall.antt =====
-- A handler on a client of pgsql.h that has nothing to do.
use qbm_pgsql.Prelude.{
  ◌≡◌, refl, sym, ap, ◌∙◌, append-nil, append_assoc, arith, not, null, true, false, List, [], ◌∷◌,
  ◌++◌, ok,
}
use qbm_pgsql.Query.{PreparedStorage}
use qbm_pgsql.Transaction.{Script, Command, run_script}
use qbm_pgsql.Transaction.Popping.{Client}
use qbm_pgsql.Transaction.Await.{awaits}
use qbm_pgsql.Transaction.Session.{
  idle, submit, push_all, push_transaction, process_if_query_ready, at_root,
}

push_transaction-queues :
    (s : Command) (c : Client)
    → c.ready_for_query ≡ false
    → push_transaction s c
      ≡ ok (record c {
        current = (at_root s c.current c.parents).0;
        parents = (at_root s c.current c.parents).1;
      })
unfolding push_transaction
push_transaction-queues s c h =
    let (f, ps) = at_root s c.current c.parents in
    ap (λ b. process_if_query_ready b (record c { current = f; parents = ps })) h

-- A client that is not ready and does not wait only queues what it is given, at the end of the queue
-- of the root where that is the current command.
push_all-queues :
    (cs : List Command) (c : Client)
    → c.ready_for_query ≡ false
    → c.parents ≡ []
    → (d : Client) × (push_all cs c ≡ ok d)
      × (d.waiting ≡ c.waiting)
      × (d.log ≡ c.log)
      × (d.parents ≡ [])
      × (d.current.command ≡ c.current.command)
      × (d.current.sub_commands ≡ c.current.sub_commands ++ cs)
unfolding push_all push_transaction
push_all-queues [] c h t = (c, refl, refl, refl, t, refl, sym (append-nil c.current.sub_commands))
push_all-queues (s ∷ rest) c h t =
    let (f, ps) = at_root s c.current c.parents in
    let e : at_root s c.current c.parents ≡ at_root s c.current [] = ap (at_root s c.current) t in
    let (d, pushed, waiting, log, alone, same, queue) =
      push_all-queues rest (record c { current = f; parents = ps }) h (ap (λ r. r.1) e) in
    rw (push_transaction-queues s c h) (
      d,
      pushed,
      waiting,
      log,
      alone,
      same ∙ ap (λ r. r.0.command) e,
      queue
          ∙ ap (λ r. r.0.sub_commands ++ rest) e
          ∙ append_assoc c.current.sub_commands (s ∷ []) rest,
    )

awaits-root :
    (d : Client) (q : List Command)
    → d.parents ≡ []
    → d.current.sub_commands ≡ q
    → d.current.command.queries ≡ []
    → awaits d ≡ not (null q)
unfolding awaits
awaits-root d q p c n = rw (p, c, n) (ground arith)

-- After `then` with a callback that makes no calls on an idle client, nothing is asked of the server
-- and the client is not ready: whatever the program calls next is queued, and nothing of it is sent;
-- if it is anything at all, the loop of `await` does not end there, though no answer is due.
pub then_stalls :
    (storage : PreparedStorage) (s : Script)
    → (c : Client) × (submit (Script.success Script.done Script.done) (idle storage) ≡ ok c)
      × (c.waiting ≡ false)
      × ((d : Client) × (submit s c ≡ ok d)
          × (d.waiting ≡ false)
          × (d.log ≡ c.log ++ (run_script true s).events)
          × (awaits d ≡ not (null (run_script true s).pushed)))
unfolding submit awaits
then_stalls storage s =
    let c = record (idle storage) { ready_for_query = false } in
    let (d, pushed, waiting, log, alone, same, queue) =
      push_all-queues (run_script true s).pushed (record c { log = (run_script true s).events })
        refl refl in
    (
      c,
      refl,
      refl,
      (
        d,
        pushed,
        waiting,
        log,
        awaits-root d (run_script true s).pushed alone queue (ap (λ k. k.queries) same),
      ),
    )
