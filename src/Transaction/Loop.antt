-- ===== src/Transaction/Loop.antt =====
-- The loop of `process_query` in pgsql.h that pops commands finds one that has not failed.
use qbm_pgsql.Prelude.{
  ℕ, zero, suc, ◌+◌, ◌≤◌, ◌≡◌, refl, ap, subst, ◌∙◌, some, List, [], ◌∷◌, ◌++◌, null, length, ok,
  arith, Bool-cases, inl, inr,
}
use qbm_pgsql.Transaction.{Frame, Event, on_sub_command_status}
use qbm_pgsql.Transaction.Status.{
  IsRooted, on_sub_command_status-Keeps, drop_queue-Keeps, destroy-weight, destroy-IsRooted,
}
use qbm_pgsql.Transaction.Popping.{remove, destroy, pop_transaction, pop_next, pop_failed, Popped}
use qbm_pgsql.Transaction.Session.{frame_weight, parents_weight}

-- `qs` is what is left of `ps` and the command `f` that was popped.
pub record Left (f : Frame) (ps qs : List Frame) : Type 0 where
  pub shorter : length qs ≡ length ps
  pub lighter : parents_weight qs + 1 ≤ frame_weight f + parents_weight ps
  pub rooted : IsRooted qs

remove-Left : (f : Frame) (ps : List Frame) → IsRooted ps → Left f ps (remove f ps).0
unfolding remove
remove-Left f [] r = absurd r
remove-Left f (p ∷ up) r =
    let p' = (destroy f.command.kind f.command.result (null up) p).0 in
    let k = drop_queue-Keeps f.sub_commands (p' ∷ up) in
    record {
      shorter = k.same_length;
      lighter =
          omega (arith, k.same_weight, destroy-weight f.command.kind f.command.result (null up) p);
      rooted = k.rooted (destroy-IsRooted f.command.kind f.command.result p up r);
    }

pop_transaction-Left :
    (f : Frame) (ps : List Frame) → IsRooted ps → Left f ps (pop_transaction f ps).0
unfolding pop_transaction
pop_transaction-Left f ps r =
    let k = on_sub_command_status-Keeps f.command.result ps in
    let l = remove-Left f (on_sub_command_status f.command.result ps) (k.rooted r) in
    record {
      shorter = l.shorter ∙ k.same_length;
      lighter = omega (arith, l.lighter, k.same_weight);
      rooted = l.rooted;
    }

-- The loop finds a command that has not failed, under a bound on the weight of what is left.
pub record Found (bound : ℕ) (r : Popped) : Type 0 where
  pub frame : Frame
  pub up : List Frame
  pub events : List Event
  pub result : r ≡ ok (some (frame, up), events)
  pub lighter : frame_weight frame + parents_weight up + 1 ≤ bound
  pub rooted : IsRooted (frame ∷ up)

weaken : {a b : ℕ} {r : Popped} → a ≤ b → Found a r → Found b r
weaken h l = record {
  frame = l.frame;
  up = l.up;
  events = l.events;
  result = l.result;
  lighter = omega (arith, l.lighter);
  rooted = l.rooted;
}

pop_next-Found :
    (bound : ℕ) (qs : List Frame) (events : List Event) (loop : Frame → List Frame → Popped)
    → IsRooted qs
    → parents_weight qs + 1 ≤ bound
    → ((p g : Frame) (gs : List Frame) → qs ≡ p ∷ g ∷ gs → Found bound (loop p (g ∷ gs)))
    → Found bound (pop_next qs events loop)
unfolding pop_next
pop_next-Found bound [] events loop r w k = absurd r
pop_next-Found bound (p ∷ []) events loop r w k =
    let t = r.1 in
    record {
      frame = p;
      up = [];
      events = events;
      result = simp t;
      lighter = omega arith;
      rooted = r;
    }
pop_next-Found bound (p ∷ g ∷ gs) events loop r w k = elim (Bool-cases p.command.result) [
  | inl e ↦ record {
    frame = p;
    up = g ∷ gs;
    events = events;
    result = simp e;
    lighter = omega arith;
    rooted = r;
  }
  | inr e ↦
      (let l = k p g gs refl in
        let next = l.result in
        record {
          frame = l.frame;
          up = l.up;
          events = events ++ l.events;
          result = simp (e, next);
          lighter = l.lighter;
          rooted = l.rooted;
        })
]

pub pop_failed-Found :
    (n : ℕ) (f : Frame) (ps : List Frame)
    → length ps ≤ n
    → IsRooted ps
    → Found (frame_weight f + parents_weight ps) (pop_failed n f ps)
unfolding pop_failed
pop_failed-Found zero f [] h r = absurd r
pop_failed-Found zero f (p ∷ ps) h r = absurd (omega arith)
pop_failed-Found (suc n) f ps h r =
    let l = pop_transaction-Left f ps r in
    pop_next-Found (frame_weight f + parents_weight ps) (pop_transaction f ps).0
      (pop_transaction f ps).1 (pop_failed n) l.rooted l.lighter
      (λ p g gs e.
        let h' : length (g ∷ gs) ≤ n = omega (arith, l.shorter, ap length e) in
        let w : frame_weight p + parents_weight (g ∷ gs) + 1 ≤ frame_weight f + parents_weight ps =
          omega (arith, l.lighter, ap parents_weight e) in
        weaken (omega arith) (pop_failed-Found n p (g ∷ gs) h' (subst IsRooted e l.rooted)))
