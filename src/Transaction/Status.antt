-- ===== src/Transaction/Status.antt =====
-- What the completion of commands keeps: the root of the tree has not failed, and no command is
-- added but what a callback pushes.
use qbm_pgsql.Prelude.{
  ◌+◌, ◌≤◌, ◌≡◌, ◌≢◌, refl, sym, ◌∙◌, Bool, true, false, List, [], ◌∷◌, ◌++◌, if◌then◌else◌, null,
  length, arith, length-append,
}
use qbm_pgsql.Query.{SqlQuery}
use qbm_pgsql.Transaction.{
  Script, Kind, root, error_command, begin_command, then_command, savepoint_command, Command, Frame,
  run_script, fail, force_end, force_first, pass_status, on_sub_command_status,
}
use qbm_pgsql.Transaction.Popping.{finish_first, enqueue, destroy, drop_queue}
use qbm_pgsql.Transaction.Session.{
  queue_weight, frame_weight, parents_weight, kind_weight, script_weight,
}

-- A root that has not failed; it has no queries of its own.
abbrev pub IsRoot : Frame → Type 0
IsRoot f = (f.command.kind ≡ root) × (f.command.result ≡ true) × (f.command.queries ≡ [])

-- The last of the frames is the root, which has not failed.
abbrev pub IsRooted : List Frame → Type 0
IsRooted [] = ⊥
IsRooted (f ∷ []) = IsRoot f
IsRooted (f ∷ g ∷ fs) = IsRooted (g ∷ fs)

-- Two lists of frames of the same length and weight, the second rooted where the first is.
pub record Keeps (ps qs : List Frame) : Type 0 where
  pub same_length : length qs ≡ length ps
  pub same_weight : parents_weight qs ≡ parents_weight ps
  pub rooted : IsRooted ps → IsRooted qs

Keeps-cons :
    (f g : Frame) (ps qs : List Frame)
    → frame_weight g ≡ frame_weight f
    → (ps ≡ [] → IsRoot f → IsRoot g)
    → Keeps ps qs
    → Keeps (f ∷ ps) (g ∷ qs)
Keeps-cons f g [] [] w r k = record {
  same_length = refl;
  same_weight = omega arith;
  rooted = r refl;
}
Keeps-cons f g [] (q ∷ qs) w r k = absurd (omega (arith, k.same_length))
Keeps-cons f g (p ∷ ps) [] w r k = absurd (omega (arith, k.same_length))
Keeps-cons f g (p ∷ ps) (q ∷ qs) w r k = record {
  same_length = omega (arith, k.same_length);
  same_weight = omega (arith, k.same_weight);
  rooted = k.rooted;
}

pub Keeps-refl : (ps : List Frame) → Keeps ps ps
Keeps-refl ps = record { same_length = refl; same_weight = refl; rooted = λ r. r }

queue_weight-force_first : (cs : List Command) → queue_weight (force_first cs) ≡ queue_weight cs
queue_weight-force_first [] = refl
queue_weight-force_first (c ∷ cs) = refl

pub Keeps-force_end : (ps : List Frame) → Keeps ps (force_end ps)
Keeps-force_end [] = Keeps-refl []
Keeps-force_end (f ∷ fs) =
    Keeps-cons f (record f { sub_commands = force_first f.sub_commands }) fs fs
      (omega (arith, queue_weight-force_first f.sub_commands)) (λ e r. r) (Keeps-refl fs)

Keeps-trans : (ps qs rs : List Frame) → Keeps ps qs → Keeps qs rs → Keeps ps rs
Keeps-trans ps qs rs k l = record {
  same_length = l.same_length ∙ k.same_length;
  same_weight = l.same_weight ∙ k.same_weight;
  rooted = λ r. l.rooted (k.rooted r);
}

not_root :
    {A : Type 0} (f : Frame) (k : Kind) → f.command.kind ≡ k → k ≢ root → f.command.kind ≡ root → A
not_root f k e n r = absurd (n (sym e ∙ r))

pass_status-Keeps :
    (k : Kind) (b : Bool) (f : Frame) (fs up : List Frame)
    → f.command.kind ≡ k
    → Keeps fs up
    → Keeps (f ∷ fs) (pass_status k b f fs up)
unfolding pass_status
pass_status-Keeps root b f fs up e k = Keeps-refl (f ∷ fs)
pass_status-Keeps (begin_command s) b f fs up e k =
    Keeps-cons f (fail b f) fs fs refl (λ _ r. not_root f _ e (λ q. cc) r.0) (Keeps-refl fs)
pass_status-Keeps (savepoint_command name s) true f fs up e k =
    Keeps-cons f (fail true f) fs up refl (λ _ r. not_root f _ e (λ q. cc) r.0) k
pass_status-Keeps (savepoint_command name s) false f fs up e k =
    Keeps-cons f (fail false f) fs (force_end up) refl (λ _ r. not_root f _ e (λ q. cc) r.0)
      (Keeps-trans fs up (force_end up) k (Keeps-force_end up))
pass_status-Keeps _ b f fs up e k =
    Keeps-cons f (fail b f) fs up refl (λ _ r. not_root f _ e (λ q. cc) r.0) k

pub on_sub_command_status-Keeps :
    (b : Bool) (ps : List Frame) → Keeps ps (on_sub_command_status b ps)
unfolding on_sub_command_status
on_sub_command_status-Keeps b [] = Keeps-refl []
on_sub_command_status-Keeps b (f ∷ fs) =
    pass_status-Keeps f.command.kind b f fs (on_sub_command_status b fs) refl
      (on_sub_command_status-Keeps b fs)

pub drop_queue-Keeps : (cs : List Command) (ps : List Frame) → Keeps ps (drop_queue cs ps).0
unfolding drop_queue
drop_queue-Keeps [] ps = Keeps-refl ps
drop_queue-Keeps (c ∷ cs) ps =
    let up = on_sub_command_status c.result ps in
    Keeps-trans ps up (drop_queue cs up).0 (on_sub_command_status-Keeps c.result ps)
      (drop_queue-Keeps cs up)

queue_weight-append :
    (xs ys : List Command) → queue_weight (xs ++ ys) ≡ queue_weight xs + queue_weight ys
queue_weight-append [] ys = omega arith
queue_weight-append (x ∷ xs) ys = omega (arith, queue_weight-append xs ys)

pub run_script-weight :
    (top : Bool) (s : Script) → queue_weight (run_script top s).pushed ≤ script_weight s
unfolding run_script script_weight kind_weight
run_script-weight top Script.done = omega arith
run_script-weight top Script.throw = omega arith
run_script-weight top (Script.execute_text expr s rest) = omega (arith, run_script-weight top rest)
run_script-weight top (Script.execute_prepared q s rest) = omega (arith, run_script-weight top rest)
run_script-weight top (Script.prepare q s rest) = omega (arith, run_script-weight top rest)
run_script-weight true (Script.begin mode s rest) = omega (arith, run_script-weight true rest)
run_script-weight false (Script.begin mode s rest) = omega (arith, run_script-weight false rest)
run_script-weight top (Script.savepoint name s rest) = omega (arith, run_script-weight top rest)
run_script-weight top (Script.success s rest) = omega (arith, run_script-weight top rest)
run_script-weight top (Script.error rest) = omega (arith, run_script-weight top rest)

finish_first-weight :
    (b : Bool) (q : SqlQuery) (cs : List Command)
    → queue_weight (finish_first b q cs) ≤ 1 + queue_weight cs
finish_first-weight b q [] = omega arith
finish_first-weight b q (e ∷ rest) = omega (arith, length-append e.queries (q ∷ []))

enqueue-weight :
    (top : Bool) (s : Script) (p : Frame)
    → frame_weight (enqueue (run_script top s) p) ≤ script_weight s + frame_weight p
enqueue-weight top s p =
    omega
      (arith, queue_weight-append p.sub_commands (run_script top s).pushed, run_script-weight top s)

pub destroy-weight :
    (k : Kind) (b top : Bool) (p : Frame)
    → frame_weight (destroy k b top p).0 ≤ kind_weight k + frame_weight p
unfolding destroy kind_weight
destroy-weight (begin_command s) b top p =
    omega (
      arith,
      finish_first-weight b (if b then SqlQuery.commit else SqlQuery.rollback) p.sub_commands,
    )
destroy-weight (savepoint_command name s) b top p =
    omega (arith, finish_first-weight b _ p.sub_commands)
destroy-weight (then_command s) b top p = ground (arith, enqueue-weight top s p)
destroy-weight error_command b top p = ground arith
destroy-weight _ b top p = omega arith

pub destroy-IsRooted :
    (k : Kind) (b : Bool) (p : Frame) (up : List Frame)
    → IsRooted (p ∷ up)
    → IsRooted ((destroy k b (null up) p).0 ∷ up)
unfolding destroy
destroy-IsRooted k b p (g ∷ gs) r = r
destroy-IsRooted (then_command s) b p [] r = ground (arith, r)
destroy-IsRooted error_command b p [] r = ground (arith, r)
destroy-IsRooted _ b p [] r = r
