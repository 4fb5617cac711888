-- ===== src/Transaction/Total.antt =====
-- `process_query` of pgsql.h comes to an end and never goes on without a command.
use qbm_pgsql.Prelude.{
  ℕ, zero, suc, ◌+◌, ◌<◌, ◌≡◌, refl, sym, ap, subst, Bool, true, false, List, [], ◌∷◌, length, drop,
  Result, ok, arith,
}
use qbm_pgsql.Query.{SqlQuery, is_valid}
use qbm_pgsql.Transaction.{
  Kind, query_command, savepoint_command, Command, Frame, sent, unprocessed,
}
use qbm_pgsql.Transaction.Status.{
  IsRooted, Keeps, IsRoot, Keeps-refl, Keeps-force_end, on_sub_command_status-Keeps,
}
use qbm_pgsql.Transaction.Popping.{Client, emit}
use qbm_pgsql.Transaction.Engine.{
  next_transaction, descend, advance, leave, send_or_refuse, process_query, on_error_query,
  query_on_error, fail_current, pop_query, ready, resume,
}
use qbm_pgsql.Transaction.Session.{queue_weight, frame_weight, parents_weight, client_weight}
use qbm_pgsql.Transaction.Loop.{pop_failed-Found}

abbrev pub HasQuery : List SqlQuery → Type 0
HasQuery [] = ⊥
HasQuery (q ∷ qs) = Unit {0}

-- A state between two events: the root has not failed and has no query of its own, and where a
-- query waits for its end, the current command has it.
abbrev pub IsSteady : Client → Type 0
IsSteady c =
    IsRooted (c.current ∷ c.parents) × (c.waiting ≡ true → HasQuery c.current.command.queries)

-- `process_query` has come to an end, in such a state.
abbrev pub Ends : Result (Bool × Client) → Type 0
Ends r = (b : Bool) × (d : Client) × (r ≡ ok (b, d)) × IsSteady d

descend-weight :
    (q : List Command) (c : Client)
    → c.current.sub_commands ≡ q
    → client_weight (descend q c) ≡ client_weight c
unfolding descend
descend-weight [] c e = refl
descend-weight (s ∷ rest) c e = omega (arith, ap queue_weight e)

change_first :
    (f g : Frame) (ps : List Frame) → (IsRoot f → IsRoot g) → IsRooted (f ∷ ps) → IsRooted (g ∷ ps)
change_first f g [] h r = h r
change_first f g (p ∷ ps) h r = r

descend-IsRooted :
    (q : List Command) (c : Client)
    → IsRooted (c.current ∷ c.parents)
    → IsRooted ((descend q c).current ∷ (descend q c).parents)
unfolding descend
descend-IsRooted [] c r = r
descend-IsRooted (s ∷ rest) c r =
    change_first c.current (record c.current { sub_commands = rest }) c.parents (λ i. i) r

-- A handler changes neither the weight of a command nor the shape of its parents.
pub query_on_error-Keeps :
    (k : Kind) (c : Client)
    → (frame_weight (query_on_error k c).current ≡ frame_weight c.current)
      × Keeps c.parents (query_on_error k c).parents
      × ((query_on_error k c).waiting ≡ c.waiting)
unfolding query_on_error
query_on_error-Keeps (query_command s) c = (refl, on_sub_command_status-Keeps false c.parents, refl)
query_on_error-Keeps (savepoint_command name s) c = (refl, Keeps-force_end c.parents, refl)
query_on_error-Keeps _ c = (refl, Keeps-refl c.parents, refl)

pub change_parents :
    (f g : Frame) (q : SqlQuery) (qs : List SqlQuery) (ps rs : List Frame)
    → f.command.queries ≡ q ∷ qs
    → IsRooted (f ∷ ps)
    → Keeps ps rs
    → IsRooted (g ∷ rs)
change_parents f g q qs [] rs e r k = let r' = r.2 in let x : ⊥ = cc in absurd x
change_parents f g q qs (p ∷ ps) [] e r k = absurd (omega (arith, k.same_length))
change_parents f g q qs (p ∷ ps) (s ∷ rs) e r k = k.rooted r

length-drop_one :
    (q : SqlQuery) (qs l : List SqlQuery) → l ≡ q ∷ qs → length (drop 1 l) + 1 ≡ length l
length-drop_one q qs [] e = let x : ⊥ = cc in absurd x
length-drop_one q qs (x ∷ l) e = omega arith

-- A query that is refused is taken off.
on_error_query-lighter :
    (c : Client) (q : SqlQuery) (qs : List SqlQuery)
    → c.current.command.queries ≡ q ∷ qs
    → IsRooted (c.current ∷ c.parents)
    → let d = on_error_query (emit unprocessed (record c { waiting = true })) in
      (client_weight d < client_weight c) × IsRooted (d.current ∷ d.parents)
unfolding on_error_query
on_error_query-lighter c q qs e r =
    let d = pop_query (fail_current (emit unprocessed (record c { waiting = true }))) in
    let k = query_on_error-Keeps c.current.command.kind d in
    (
      omega (arith, k.0, k.1.same_weight, length-drop_one q qs c.current.command.queries e),
      change_parents c.current (query_on_error c.current.command.kind d).current q qs c.parents _ e
          r k.1,
    )

module _ (fuel : ℕ) (loop : Client → Result (Bool × Client))
    (loop_ends : (d : Client)
      → client_weight d < fuel
      → IsRooted (d.current ∷ d.parents)
      → Ends (loop d)) where
  send_or_refuse-Ends :
      (b : Bool) (q : SqlQuery) (qs : List SqlQuery) (c : Client)
      → c.current.command.queries ≡ q ∷ qs
      → client_weight c < suc fuel
      → IsRooted (c.current ∷ c.parents)
      → Ends (send_or_refuse b q c loop)
  unfolding send_or_refuse
  send_or_refuse-Ends true q qs c e h r =
      (true, emit (sent q) (record c { waiting = true }), refl, (r, λ w. subst HasQuery (sym e) tt))
  send_or_refuse-Ends false q qs c e h r =
      let l = on_error_query-lighter c q qs e r in
      let (b, d, f, r') =
        loop_ends (on_error_query (emit unprocessed (record c { waiting = true })))
          (omega (arith, l.0)) l.1 in
      ((ready (b, d)).0, (ready (b, d)).1, rw f refl, ready_rooted b d r')
    where
      ready_rooted : (b : Bool) (d : Client) → IsSteady d → IsSteady (ready (b, d)).1
      ready_rooted true d r = r
      ready_rooted false d r = r

  leave-Ends :
      (ps : List Frame) (c : Client)
      → c.parents ≡ ps
      → client_weight c < suc fuel
      → IsRooted (c.current ∷ c.parents)
      → Ends (leave ps c loop)
  unfolding leave
  leave-Ends [] c e h r =
      (false, record c { waiting = false }, refl, (r, λ w. let x : ⊥ = cc in absurd x))
  leave-Ends (p ∷ ps) c e h r =
      let r' : IsRooted (c.current ∷ p ∷ ps) = subst (λ x. IsRooted (c.current ∷ x)) e r in
      let l = pop_failed-Found (length (p ∷ ps)) c.current (p ∷ ps) (omega arith) r' in
      let next = l.result in
      let (b, d, f, r'') =
        loop_ends (resume (record c { waiting = false }) (l.frame, l.up) l.events)
          (omega (arith, l.lighter, ap parents_weight e)) l.rooted in
      (b, d, rw next f, r'')

  advance-Ends :
      (qs : List SqlQuery) (c : Client)
      → c.current.command.queries ≡ qs
      → client_weight c < suc fuel
      → IsRooted (c.current ∷ c.parents)
      → Ends (advance qs c loop)
  unfolding advance
  advance-Ends (q ∷ qs) c e h r = send_or_refuse-Ends (is_valid c.storage q) q qs c e h r
  advance-Ends [] c e h r = leave-Ends c.parents c refl h r

-- `process_query` comes to an end in as many rounds as the client has weight, never without a
-- command to go on with: where the root has not failed and has no queries of its own. It leaves
-- the root so, and a query that it waits for is one of the current command.
pub process_query-Ends :
    (fuel : ℕ) (c : Client)
    → client_weight c < fuel
    → IsRooted (c.current ∷ c.parents)
    → Ends (process_query fuel c)
unfolding process_query next_transaction
process_query-Ends zero c h r = elim h [ ]
process_query-Ends (suc fuel) c h r =
    let e = record c { ready_for_query = false } in
    let d = descend c.current.sub_commands e in
    advance-Ends fuel (process_query fuel) (process_query-Ends fuel) d.current.command.queries d
      refl (omega (arith, descend-weight c.current.sub_commands e refl))
      (descend-IsRooted c.current.sub_commands e r)
