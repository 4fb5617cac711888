-- ===== src/Transaction/Await.antt =====
-- `Transaction::await` of src/transaction.cpp on the database: the condition of its loop.
use qbm_pgsql.Prelude.{
  ◌≡◌, refl, subst, Bool, true, false, not, ◌||◌, List, [], ◌∷◌, null, Bool-cases, inl, inr, arith,
}
use qbm_pgsql.Query.{PreparedStorage}
use qbm_pgsql.Transaction.{Command, Frame}
use qbm_pgsql.Transaction.Popping.{Client}
use qbm_pgsql.Transaction.Status.{IsRooted}
use qbm_pgsql.Transaction.Total.{HasQuery}
use qbm_pgsql.Transaction.Reach.{Reaches, reached_goes}

-- A command that has begun is still in the queue of its parent, so that the root has a command while
-- there is a parent.
abbrev pub root_busy : Frame → List Frame → Bool
root_busy f [] = not (null f.sub_commands) || not (null f.command.queries)
root_busy f (p ∷ ps) = true

unfoldable pub awaits : Client → Bool
awaits c = root_busy c.current c.parents

null_queue : (q : List Command) → null q ≡ true → q ≡ []
null_queue [] e = refl
null_queue (c ∷ q) e = let x : ⊥ = cc in absurd x

idle_root :
    (f : Frame) (ps : List Frame) (waiting : Bool)
    → IsRooted (f ∷ ps)
    → (waiting ≡ true → HasQuery f.command.queries)
    → root_busy f ps ≡ false
    → (ps ≡ []) × (f.sub_commands ≡ []) × (waiting ≡ false)
idle_root f [] waiting (k, r, q) w e = (
  refl,
  null_queue f.sub_commands (ground (arith, e)),
  elim (Bool-cases waiting) [ inl t ↦ absurd (subst HasQuery q (w t)) | inr g ↦ g ],
)
idle_root f (p ∷ ps) waiting r w e = let x : ⊥ = cc in absurd x

-- In every state that a client reaches from idleness, if the loop of `await` ends there, then no
-- command is being executed, none is queued, and no query waits for its answer.
pub awaits-finished :
    (storage : PreparedStorage) (c : Client)
    → Reaches storage c
    → awaits c ≡ false
    → (c.parents ≡ []) × (c.current.sub_commands ≡ []) × (c.waiting ≡ false)
unfolding awaits
awaits-finished storage c r e =
    let (submits, answers, steady) = reached_goes storage c r in
    idle_root c.current c.parents c.waiting steady.0 steady.1 e
