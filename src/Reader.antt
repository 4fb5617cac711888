-- ===== src/Reader.antt =====
-- The reads of src/protocol.cpp: a function of the bytes from the cursor to the end of the payload.
-- It returns the value, or `none` where the C++ function returns false, and the bytes from the new
-- cursor on; or it throws, or reads past the end of the payload.
use qbm_pgsql.Prelude.{ℕ, Option, none, some, List, Result, ok, throws, undefined}

abbrev pub Reader : Type 0 → Type 0
Reader A = List ℕ → Result (Option A × List ℕ)

abbrev pub continue :
    {A B : Type 0} → Result (Option A × List ℕ) → (A → Reader B) → Result (Option B × List ℕ)
continue (ok (some a, s)) f = f a s
continue (ok (none, s)) f = ok (none, s)
continue (throws e) f = throws e
continue undefined f = undefined

-- `a && b`: the second read is made where the first succeeds, from the cursor that it leaves.
infixl 5 ◌>>=◌
abbrev pub ◌>>=◌ : {A B : Type 0} → Reader A → (A → Reader B) → Reader B
◌>>=◌ m f s = continue (m s) f

abbrev pub pure : {A : Type 0} → A → Reader A
pure a s = ok (some a, s)
