-- ===== src/Field/Rows.antt =====
-- Whole rows read by `row::to` of src/resultset.inl.
use qbm_pgsql.Prelude.{
  get_elem?-lt, ℕ, zero, suc, ◌+◌, ◌<◌, ◌≤◌, ◌≡◌, refl, subst, Option, none, some, List, [], ◌∷◌,
  length, get_elem?, map, Result, ok, throws, value_is_null, arith, All,
}
use qbm_pgsql.Wire.{Host}
use qbm_pgsql.Message.{FieldDescription}
use qbm_pgsql.Row.Columns.{values}
use qbm_pgsql.Convert.{ValueType, Value, type_of}
use qbm_pgsql.Resultset.{ResultImpl}
use qbm_pgsql.Field.{as_value, row_to}
use qbm_pgsql.Field.Sent.{sent, sent_row, Answers, IsCell, as_value-sent}

-- The values in front of the first null, and how the reading of the row ends.
abbrev pub up_to_null : List (Option Value) → List Value × Result (Unit {0})
up_to_null [] = ([], ok tt)
up_to_null (none ∷ os) = ([], throws value_is_null)
up_to_null (some v ∷ os) = let (vs, outcome) = up_to_null os in (v ∷ vs, outcome)

-- The types of the values, and any type for a null.
abbrev pub type_or : ValueType → Option Value → ValueType
type_or t none = t
type_or t (some v) = type_of v

get_elem?-described {ℓ} :
    {A : Type ℓ} (xs : List A) (k : ℕ) → k < length xs → (x : A) × (get_elem? xs k ≡ some x)
get_elem?-described [] k h = absurd (omega arith)
get_elem?-described (x ∷ xs) zero h = (x, refl)
get_elem?-described (x ∷ xs) (suc k) h = get_elem?-described xs k (omega arith)

IsCell-at :
    (os : List (Option Value)) (k : ℕ) (o : Option Value)
    → All IsCell os
    → get_elem? os k ≡ some o
    → IsCell o
IsCell-at [] k o v h = let absurdity : ⊥ = cc in absurd absurdity
IsCell-at (x ∷ xs) zero o v h = let e : x ≡ o = cc in subst IsCell e v.0
IsCell-at (x ∷ xs) (suc k) o v h = IsCell-at xs k o v.1 h

module _ ⦃h : Host⦄ where
  row_to-Answers :
      (r : ResultImpl) (i c : ℕ) (t : ValueType) (os : List (Option Value))
      → ((k : ℕ) (o : Option Value)
          → get_elem? os k ≡ some o
          → Answers o (λ u. as_value u r i (c + k)))
      → row_to r i c (map (type_or t) os) ≡ up_to_null os
  unfolding row_to
  row_to-Answers r i c t [] all = refl
  row_to-Answers r i c t (none ∷ os) all =
      let e : c + 0 ≡ c = omega arith in
      let head : as_value t r i c ≡ throws value_is_null = rw e at (all 0 none refl t) in
      rw (head, row_to) refl
  row_to-Answers r i c t (some v ∷ os) all =
      let e : c + 0 ≡ c = omega arith in
      let head : as_value (type_of v) r i c ≡ ok v = rw e at (all 0 (some v) refl) in
      let tail = row_to-Answers r i (suc c) t os (λ k o at_k.
        let shift : c + suc k ≡ suc c + k = omega arith in rw shift at (all (suc k) o at_k)) in
      rw (head, row_to) (rw tail refl)

  -- A row of a table of typed values, sent with fewer than 2 ^ 31 bytes of values under as many
  -- field descriptions at least, is read by its types into exactly these values, whichever the
  -- format of each field; where the row holds nulls, the values in front of the first null are
  -- assigned and then `value_is_null` is thrown.
  pub row_to-sent :
      (fields : List FieldDescription) (table : List (List (Option Value))) (i : ℕ)
      (vs : List (Option Value)) (t : ValueType)
      → get_elem? table i ≡ some vs
      → length vs ≤ length fields
      → length (values (sent_row fields vs)) < 2147483648
      → All IsCell vs
      → row_to (sent fields table) i 0 (map (type_or t) vs) ≡ up_to_null vs
  row_to-sent fields table i vs t at_row described small valid =
      row_to-Answers (sent fields table) i 0 t vs (λ k o at_k.
        let (f, at_f) = get_elem?-described fields k (omega (arith, get_elem?-lt vs k o at_k)) in
        let e : 0 + k ≡ k = omega arith in
        rw e (
          as_value-sent fields table i k vs o f at_row at_k at_f small
            (IsCell-at vs k o valid at_k)))
