-- ===== src/Field/To.antt =====
-- `field::to` of src/resultset.h and `row::to` by names of src/resultset.inl.
use qbm_pgsql.Prelude.{
  ℕ, ◌%◌, Bool, true, false, Option, none, some, List, [], ◌∷◌, ◌==◌, if◌then◌else◌, Result, ok,
  throws, value_is_null, runtime_error, ◌>>=◌,
}
use qbm_pgsql.Resultset.{ResultImpl, is_null, at, field, index_of_name}

-- `to_impl`, by whether the type has a parser for the binary format: the buffer is fetched, and the
-- variable is not assigned. `val` is what the variable holds; what comes back is what it holds then.
unfoldable pub to_impl : {A : Type 0} → Bool → ResultImpl → ℕ → ℕ → A → Result (Bool × A)
unfolding at field
to_impl true r i c val = do buffer ← at r i c; ok (true, val)
to_impl false r i c val = do
  fd ← field r c
  if fd.format_code == 1 then throws runtime_error else (do buffer ← at r i c; ok (true, val))

-- `to` of a type that is not nullable.
unfoldable pub to : {A : Type 0} → Bool → ResultImpl → ℕ → ℕ → A → Result (Bool × A)
unfolding is_null to_impl
to parser r i c val = do
  missing ← is_null r i c
  if missing then throws value_is_null else to_impl parser r i c val

-- `to` of an optional: `tmp` is what a new variable of the type holds before it is assigned.
unfoldable pub to_optional : {A : Type 0} → Bool → ResultImpl → ℕ → ℕ → A → Result (Option A)
unfolding is_null to_impl
to_optional parser r i c tmp = do
  missing ← is_null r i c
  if missing then ok none else (do (done, value) ← to_impl parser r i c tmp; ok (some value))

-- `field_by_name_extractor::get_values`, on as many names as variables: `to` for each in turn, a row
-- taking an index of 16 bits.
unfoldable pub to_by_names :
    {A : Type 0} → Bool → ResultImpl → ℕ → List (List ℕ × A) → Result (List A)
unfolding to index_of_name
to_by_names parser r i [] = ok []
to_by_names parser r i ((name, val) ∷ rest) = do
  (done, value) ← to parser r i (index_of_name r name % 65536) val
  values ← to_by_names parser r i rest
  ok (value ∷ values)
