-- ===== src/Prelude/Results.antt =====
-- Outcomes of C++ code that may throw. `undefined` is no result: the code has left what the
-- language defines, as by a read past the end of a buffer.

pub data Fault : Type 0 where
  runtime_error length_error out_of_range invalid_argument value_is_null : Fault

pub data Result {ℓ} (A : Type ℓ) : Type ℓ where
  ok : A → Result A
  throws : Fault → Result A
  undefined : Result A

infixl 5 ◌>>=◌
abbrev pub ◌>>=◌ {ℓ κ} : {A : Type ℓ} {B : Type κ} → Result A → (A → Result B) → Result B
ok a >>= f = f a
throws e >>= f = throws e
undefined >>= f = undefined
