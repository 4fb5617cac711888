-- ===== src/Field/Unassigned.antt =====
-- What `field::to` of src/resultset.h leaves in the variables that it is given.
use qbm_pgsql.Prelude.{ℕ, List, [], ◌∷◌}

abbrev pub held : {A : Type 0} → List (List ℕ × A) → List A
held [] = []
held ((name, val) ∷ rest) = val ∷ held rest
