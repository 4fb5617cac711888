-- ===== src/Transaction/Reach.antt =====
-- The states that `Database` of pgsql.h reaches, by calls of the program and messages of the server.
use qbm_pgsql.Prelude.{
  suc, ◌≡◌, refl, sym, subst, ◌∙◌, Bool, true, false, List, [], ◌∷◌, ◌++◌, if◌then◌else◌, Result,
  ok, arith,
}
use qbm_pgsql.Message.{FieldDescription}
use qbm_pgsql.Query.{PreparedStorage, SqlQuery}
use qbm_pgsql.Transaction.{Script, Command, Frame, run_script, fail}
use qbm_pgsql.Transaction.Status.{IsRooted, Keeps-refl}
use qbm_pgsql.Transaction.Total.{IsSteady, HasQuery, Ends, process_query-Ends, change_parents}
use qbm_pgsql.Transaction.Popping.{Client}
use qbm_pgsql.Transaction.Engine.{on_error_query, on_success_query}
use qbm_pgsql.Transaction.Session.{
  idle, submit, push_all, push_transaction, process_if_query_ready, at_root, on_error_response,
  on_ready_for_query, on_row_description, on_data_row, next_query, client_weight,
}
use qbm_pgsql.Transaction.Answers.{if_lem, answer-IsSteady, refuse-IsSteady}

pub data Step : Client → Client → Type 0 where
  submits : (s : Script) (c d : Client) → submit s c ≡ ok d → Step c d
  fails : (c : Client) → Step c (on_error_response c)
  -- The server describes rows and sends them only while it answers a query.
  describes :
      (fields : List FieldDescription) (whole : Bool) (c : Client)
      → c.waiting ≡ true
      → Step c (on_row_description fields whole c)
  rows : (whole : Bool) (c : Client) → c.waiting ≡ true → Step c (on_data_row whole c)
  is_ready : (c d : Client) → on_ready_for_query c ≡ ok d → Step c d

-- From a client that has nothing to do.
pub data Reaches (storage : PreparedStorage) : Client → Type 0 where
  starts : Reaches storage (idle storage)
  steps : (c d : Client) → Reaches storage c → Step c d → Reaches storage d

at_root-command :
    (s : Command) (f : Frame) (ps : List Frame) → (at_root s f ps).0.command ≡ f.command
at_root-command s f [] = refl
at_root-command s f (p ∷ ps) = refl

at_root-IsRooted :
    (s : Command) (f : Frame) (ps : List Frame)
    → IsRooted (f ∷ ps)
    → IsRooted ((at_root s f ps).0 ∷ (at_root s f ps).1)
at_root-IsRooted s f [] r = r
at_root-IsRooted s f (p ∷ ps) r = at_root-IsRooted s p ps r

next_query-Ends : (c : Client) → IsSteady c → Ends (next_query c)
next_query-Ends c s = process_query-Ends (suc (client_weight c)) c (omega arith) s.0

abbrev Goes : Result Client → Type 0
Goes r = (d : Client) × (r ≡ ok d) × IsSteady d

push_transaction-Goes : (s : Command) (c : Client) → IsSteady c → Goes (push_transaction s c)
unfolding push_transaction
push_transaction-Goes s c t = after_push c.ready_for_query
  where
    c' : Client
    c' = record c {
      current = (at_root s c.current c.parents).0;
      parents = (at_root s c.current c.parents).1;
    }

    t' : IsSteady c'
    t' = (
      at_root-IsRooted s c.current c.parents t.0,
      λ w. subst (λ m. HasQuery m.queries) (sym (at_root-command s c.current c.parents)) (t.1 w),
    )

    after_push : (b : Bool) → Goes (process_if_query_ready b c')
    after_push false = (c', refl, t')
    after_push true = let (b, d, e, u) = next_query-Ends c' t' in (d, rw e refl, u)

push_all-Goes : (cs : List Command) (c : Client) → IsSteady c → Goes (push_all cs c)
unfolding push_all
push_all-Goes [] c t = (c, refl, t)
push_all-Goes (s ∷ rest) c t =
    let (d, e, u) = push_transaction-Goes s c t in rw e (push_all-Goes rest d u)

submit-Goes : (s : Script) (c : Client) → IsSteady c → Goes (submit s c)
unfolding submit
submit-Goes s c t =
    push_all-Goes (run_script true s).pushed
      (record c { log = c.log ++ (run_script true s).events }) t

on_ready_for_query-Goes : (c : Client) → IsSteady c → Goes (on_ready_for_query c)
unfolding on_ready_for_query on_success_query
on_ready_for_query-Goes c t =
    let c' = on_success_query c in
    let (b, d, e, u) =
      next_query-Ends c' (answer-IsSteady c.waiting c.current.command.queries c refl t) in
    (
      (if b then d else record d { ready_for_query = true }),
      rw e refl,
      if_lem IsSteady b d (record d { ready_for_query = true }) u u,
    )

query_cons : (l : List SqlQuery) → HasQuery l → (q : SqlQuery) × (qs : List SqlQuery) × (l ≡ q ∷ qs)
query_cons [] h = absurd h
query_cons (q ∷ qs) h = (q, qs, refl)

-- While a query waits, the current command may change in all but its queries.
waits-IsSteady :
    (c : Client) (f : Frame)
    → c.waiting ≡ true
    → f.command.queries ≡ c.current.command.queries
    → IsSteady c
    → IsSteady (record c { current = f })
waits-IsSteady c f w e t =
    let (q, qs, g) = query_cons c.current.command.queries (t.1 w) in
    (
      change_parents c.current f q qs c.parents c.parents g t.0 (Keeps-refl c.parents),
      λ v. subst HasQuery (sym e) (t.1 w),
    )

on_data_row-IsSteady :
    (whole : Bool) (c : Client) → c.waiting ≡ true → IsSteady c → IsSteady (on_data_row whole c)
unfolding on_data_row
on_data_row-IsSteady true c w t = t
on_data_row-IsSteady false c w t = waits-IsSteady c (fail false c.current) w refl t

on_row_description-IsSteady :
    (fields : List FieldDescription) (whole : Bool) (c : Client)
    → c.waiting ≡ true
    → IsSteady c
    → IsSteady (on_row_description fields whole c)
unfolding on_row_description
on_row_description-IsSteady fields true c w t =
    waits-IsSteady c (on_row_description fields true c).current w refl t
on_row_description-IsSteady fields false c w t =
    waits-IsSteady c (on_row_description fields false c).current w refl t

ok_injective : {A : Type 0} (a b : A) → ok a ≡ ok b → a ≡ b
ok_injective a b e = cc

Goes-IsSteady : (r : Result Client) (d : Client) → r ≡ ok d → Goes r → IsSteady d
Goes-IsSteady r d e (d', e', t) = subst IsSteady (ok_injective d' d (sym e' ∙ e)) t

Step-IsSteady : (c d : Client) → Step c d → IsSteady c → IsSteady d
unfolding on_error_response on_error_query
Step-IsSteady c d (submits s _ _ e) t = Goes-IsSteady (submit s c) d e (submit-Goes s c t)
Step-IsSteady c d (fails _) t = refuse-IsSteady c.waiting c.current.command.queries c refl refl t
Step-IsSteady c d (describes fields whole _ w) t = on_row_description-IsSteady fields whole c w t
Step-IsSteady c d (rows whole _ w) t = on_data_row-IsSteady whole c w t
Step-IsSteady c d (is_ready _ _ e) t =
    Goes-IsSteady (on_ready_for_query c) d e (on_ready_for_query-Goes c t)

Reaches-IsSteady : (storage : PreparedStorage) (c : Client) → Reaches storage c → IsSteady c
Reaches-IsSteady storage c starts = ((refl, refl, refl), λ w. let x : ⊥ = cc in absurd x)
Reaches-IsSteady storage c (steps b _ r s) = Step-IsSteady b c s (Reaches-IsSteady storage b r)

-- In every state that a client reaches from idleness, in any order, by calls of the program, and by
-- errors and ends of queries from the server at any time and its rows and descriptions of rows
-- while a query waits for its end, each call of the program and each end of a query is handled to
-- its end: the search for the next query stops and never leaves the root. The root has not failed
-- there, and a query that waits for its end is one of the current command.
pub reached_goes :
    (storage : PreparedStorage) (c : Client)
    → Reaches storage c
    → ((s : Script) → (d : Client) × (submit s c ≡ ok d))
      × ((d : Client) × (on_ready_for_query c ≡ ok d))
      × IsSteady c
reached_goes storage c r =
    let t = Reaches-IsSteady storage c r in
    let (d, e, u) = on_ready_for_query-Goes c t in
    (λ s. (let (f, g, v) = submit-Goes s c t in (f, g)), (d, e), t)
