-- ===== src/Prelude/Outcomes.antt =====
-- What holds of the outcomes of C++ code that may throw, taken apart along the code.
use qbm_pgsql.Prelude.Results.{Result, ok, throws, undefined, ◌>>=◌}
use qbm_pgsql.Prelude.{Bool, true, false, Option, none, some, ◌≡◌, refl, if◌then◌else◌}

-- What holds of the value of an outcome, if it has one.
abbrev pub Held : {A : Type 0} → (A → Type 0) → Result A → Type 0
Held P (ok a) = P a
Held P (throws e) = Unit {0}
Held P undefined = Unit {0}

pub record IfOk {A : Type 0} (P : A → Type 0) (r : Result A) : Type 0 where
  pub held : Held P r

pub IfOk-bind :
    {A B : Type 0} (P : B → Type 0) (r : Result A) (k : A → Result B)
    → ((a : A) → IfOk P (k a))
    → IfOk P (r >>= k)
IfOk-bind P (ok a) k h = h a
IfOk-bind P (throws e) k h = record { held = tt }
IfOk-bind P undefined k h = record { held = tt }

pub IfOk-bind_if :
    {A B : Type 0} (Q : A → Type 0) (P : B → Type 0) (r : Result A) (k : A → Result B)
    → IfOk Q r
    → ((a : A) → Q a → IfOk P (k a))
    → IfOk P (r >>= k)
IfOk-bind_if Q P (ok a) k q h = h a q.held
IfOk-bind_if Q P (throws e) k q h = record { held = tt }
IfOk-bind_if Q P undefined k q h = record { held = tt }

pub IfOk-if :
    {A : Type 0} (P : A → Type 0) (b : Bool) (x y : Result A)
    → (b ≡ true → IfOk P x)
    → (b ≡ false → IfOk P y)
    → IfOk P (if b then x else y)
IfOk-if P true x y t f = t refl
IfOk-if P false x y t f = f refl

pub IfOk-elim :
    {A B : Type 0} (P : B → Type 0) (o : Option A) (x : Result B) (f : A → Result B)
    → IfOk P x
    → ((a : A) → IfOk P (f a))
    → IfOk P (elim o [ none ↦ x | some a ↦ f a ])
IfOk-elim P none x f p q = p
IfOk-elim P (some a) x f p q = q a

pub IfOk-map :
    {A : Type 0} (Q P : A → Type 0) (r : Result A) → ((a : A) → Q a → P a) → IfOk Q r → IfOk P r
IfOk-map Q P (ok a) f q = record { held = f a q.held }
IfOk-map Q P (throws e) f q = record { held = tt }
IfOk-map Q P undefined f q = record { held = tt }
