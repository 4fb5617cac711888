-- ===== src/Transaction/Answers.antt =====
-- The handlers of the ends and the errors of queries, of src/commands.h and pgsql.h, keep the state
-- of the client steady.
use qbm_pgsql.Prelude.{◌≡◌, refl, subst, Bool, true, false, List, [], ◌∷◌, if◌then◌else◌}
use qbm_pgsql.Query.{SqlQuery, push}
use qbm_pgsql.Transaction.{
  Script, Kind, begin_command, query_command, prepared_command, prepare_command, savepoint_command,
  end_command, end_savepoint_command, run_script,
}
use qbm_pgsql.Transaction.Status.{
  IsRooted, Keeps, Keeps-refl, Keeps-force_end, on_sub_command_status-Keeps,
}
use qbm_pgsql.Transaction.Total.{IsSteady, HasQuery, change_parents, query_on_error-Keeps}
use qbm_pgsql.Transaction.Popping.{Client}
use qbm_pgsql.Transaction.Engine.{
  query_on_success, query_on_error, call, ran, caught, caught_savepoint, caught_query, answer,
  refuse, fail_current, pop_query,
}

pub if_lem : {A : Type 0} (P : A → Type 0) (b : Bool) (x y : A) → P x → P y → P (if b then x else y)
if_lem P true x y p q = p
if_lem P false x y p q = q

-- What a handler leaves of the parents of a command whose query is done.
abbrev Handled : Client → Client → Type 0
Handled c d = Keeps c.parents d.parents × (d.waiting ≡ c.waiting)

call-Handled :
    (s : Script) (caught : Client → Client) (c : Client)
    → Handled c (caught (ran s c))
    → Handled c (call s caught c)
call-Handled s caught c h =
    if_lem (Handled c) (run_script false s).returns (ran s c) (caught (ran s c))
      (Keeps-refl c.parents, refl) h

query_on_success-Handled :
    (k : Kind) (q : SqlQuery) (c : Client) → Handled c (query_on_success k q c)
unfolding query_on_success
query_on_success-Handled (begin_command s) q c =
    call-Handled s caught c (Keeps-refl c.parents, refl)
query_on_success-Handled (savepoint_command name s) q c =
    call-Handled s caught_savepoint c (Keeps-force_end c.parents, refl)
query_on_success-Handled (query_command s) q c =
    call-Handled s caught_query c (on_sub_command_status-Keeps false c.parents, refl)
query_on_success-Handled (prepared_command s) q c =
    call-Handled s caught c (Keeps-refl c.parents, refl)
query_on_success-Handled (prepare_command p s) q c =
    call-Handled s caught (record c { storage = (push c.storage p).0 }) (Keeps-refl c.parents, refl)
query_on_success-Handled end_command SqlQuery.rollback c = (Keeps-refl c.parents, refl)
query_on_success-Handled end_command _ c = (Keeps-refl c.parents, refl)
query_on_success-Handled (end_savepoint_command name) (SqlQuery.rollback_savepoint n) c =
    (Keeps-refl c.parents, refl)
query_on_success-Handled (end_savepoint_command name) _ c = (Keeps-refl c.parents, refl)
query_on_success-Handled _ q c = (Keeps-refl c.parents, refl)

Handled-IsSteady :
    (c d e : Client) (q : SqlQuery) (qs : List SqlQuery)
    → c.current.command.queries ≡ q ∷ qs
    → IsRooted (c.current ∷ c.parents)
    → d.parents ≡ c.parents
    → d.waiting ≡ false
    → Handled d e
    → IsSteady e
Handled-IsSteady c d e q qs f r p w h = (
  change_parents c.current e.current q qs c.parents e.parents f r
      (subst (λ x. Keeps x e.parents) p h.0),
  λ v. let a = h.1 in let x : ⊥ = cc in absurd x,
)

pub answer-IsSteady :
    (b : Bool) (qs : List SqlQuery) (c : Client)
    → c.current.command.queries ≡ qs
    → IsSteady c
    → IsSteady (answer b qs c)
unfolding answer
answer-IsSteady false qs c e s = s
answer-IsSteady true [] c e s = s
answer-IsSteady true (q ∷ qs) c e s =
    Handled-IsSteady c (pop_query c) (query_on_success c.current.command.kind q (pop_query c)) q qs
      e s.0 refl refl (query_on_success-Handled c.current.command.kind q (pop_query c))

pub refuse-IsSteady :
    (b : Bool) (qs : List SqlQuery) (c : Client)
    → c.waiting ≡ b
    → c.current.command.queries ≡ qs
    → IsSteady c
    → IsSteady (refuse b c)
unfolding refuse
refuse-IsSteady false qs c w e s = s
refuse-IsSteady true [] c w e s = absurd (subst HasQuery e (s.1 w))
refuse-IsSteady true (q ∷ qs) c w e s =
    let d = pop_query (fail_current c) in
    let k = query_on_error-Keeps c.current.command.kind d in
    Handled-IsSteady c d (query_on_error c.current.command.kind d) q qs e s.0 refl refl (k.1, k.2)
