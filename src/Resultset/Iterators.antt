-- ===== src/Resultset/Iterators.antt =====
-- The iterators of src/resultset.cpp, forwards and backwards.
use qbm_pgsql.Prelude.{ℕ, zero, suc, ◌-◌, ◌≤◌, ◌<◌, ◌≡◌, ◌≢◌, ◌⊎◌, inl, inr, refl, ap, ◌∙◌, arith}
use qbm_pgsql.Resultset.{
  advance, advance_field, no_row, no_field, begin_row, end_row, rbegin_row, rend_row, rbegin_field,
  rend_field,
}

-- The iterator after `n` steps forward from the first row, and the base of the reverse iterator
-- after `n` steps from `rbegin()`; a step back has the distance -1.
abbrev pub forward : ℕ → ℕ → ℕ
forward count zero = begin_row
forward count (suc n) = advance count (forward count n) 1

abbrev pub backward : ℕ → ℕ → ℕ
backward count zero = rbegin_row count
backward count (suc n) = advance count (backward count n) no_row

lt-cases : (a b : ℕ) → (a < b) ⊎ (b ≤ a)
lt-cases a b = ground arith

step_forward : (count i : ℕ) → count < 4294967295 → i < count → advance count i 1 ≡ suc i
unfolding advance
step_forward count i p q = ground arith

step_back : (count i : ℕ) → count < 4294967295 → i < count → advance count (suc i) no_row ≡ i
unfolding advance
step_back count i p q = ground arith

back_of_first : (count : ℕ) → advance count 0 no_row ≡ no_row
unfolding advance
back_of_first count = ground arith

back_of_none : (count : ℕ) → advance count no_row no_row ≡ no_row
unfolding advance
back_of_none count = ground arith

forward-row : (count n : ℕ) → count < 4294967295 → n ≤ count → forward count n ≡ n
forward-row count zero p q = refl
forward-row count (suc n) p q =
    ap (λ i. advance count i 1) (forward-row count n p (omega arith)) ∙ step_forward count n p q

backward-row : (count n : ℕ) → count < 4294967295 → n < count → backward count n ≡ count - suc n
backward-row count zero p q = omega arith
backward-row count (suc n) p q =
    let e : count - suc n ≡ suc (count - suc (suc n)) = omega arith in
    ap (λ i. advance count i no_row) (backward-row count n p (omega arith) ∙ e)
    ∙ step_back count (count - suc (suc n)) p (omega arith)

backward-past :
    (count n : ℕ) → 0 < count → count < 4294967295 → count ≤ n → backward count n ≡ no_row
backward-past count zero z p q = absurd (omega arith)
backward-past count (suc n) z p q = elim (lt-cases n count) [
  | inl h ↦
      let e : count - suc n ≡ 0 = omega arith in
      ap (λ i. advance count i no_row) (backward-row count n p h ∙ e) ∙ back_of_first count
  | inr h ↦ ap (λ i. advance count i no_row) (backward-past count n z p h) ∙ back_of_none count
]

backward-rend_row : (count n : ℕ) → 0 < count → count < 4294967295 → backward count n ≢ rend_row
backward-rend_row count n z p e = elim (lt-cases n count) [
  | inl h ↦ absurd (omega (arith, e, backward-row count n p h))
  | inr h ↦ absurd (omega (arith, e, backward-past count n z p h))
]

-- Over fewer than 2 ^ 32 - 1 rows, the steps from `begin()` give each row in order and then `end()`.
-- The steps of the reverse iterator go wrong: of two rows or more, it gives the last but one first,
-- and of any rows at all, no number of steps from `rbegin()` leads to `rend()`. A step back from an
-- iterator that is past the ends leads nowhere.
pub rows_iterated :
    (count : ℕ)
    → count < 4294967295
    → ((n : ℕ) → n < count → forward count n ≡ n)
      × (forward count count ≡ end_row count)
      × (1 < count → advance count (rbegin_row count) no_row ≡ count - 2)
      × (0 < count → (n : ℕ) → backward count n ≢ rend_row)
      × (advance count no_row no_row ≡ no_row)
rows_iterated count p = (
  λ n h. forward-row count n p (omega arith),
  forward-row count count p (omega arith) ∙ (let e : count ≡ end_row count = omega arith in e),
  λ h. backward-row count 1 p h ∙ omega arith,
  λ z n. backward-rend_row count n z p,
  back_of_none count,
)

-- The same of the fields of a row.
abbrev pub forward_field : ℕ → ℕ → ℕ
forward_field columns zero = 0
forward_field columns (suc n) = advance_field columns (forward_field columns n) 1

abbrev pub backward_field : ℕ → ℕ → ℕ
backward_field columns zero = rbegin_field columns
backward_field columns (suc n) = advance_field columns (backward_field columns n) no_row

step_forward_field :
    (columns i : ℕ) → columns < 32767 → i < columns → advance_field columns i 1 ≡ suc i
unfolding advance_field
step_forward_field columns i p q = ground arith

step_back_field :
    (columns i : ℕ) → columns < 32767 → i < columns → advance_field columns (suc i) no_row ≡ i
unfolding advance_field
step_back_field columns i p q = ground arith

back_of_first_field : (columns : ℕ) → advance_field columns 0 no_row ≡ no_field
unfolding advance_field
back_of_first_field columns = ground arith

forward_field-column : (columns n : ℕ) → columns < 32767 → n ≤ columns → forward_field columns n ≡ n
forward_field-column columns zero p q = refl
forward_field-column columns (suc n) p q =
    ap (λ i. advance_field columns i 1) (forward_field-column columns n p (omega arith))
    ∙ step_forward_field columns n p q

backward_field-column :
    (columns n : ℕ) → columns < 32767 → n < columns → backward_field columns n ≡ columns - suc n
backward_field-column columns zero p q = omega arith
backward_field-column columns (suc n) p q =
    let e : columns - suc n ≡ suc (columns - suc (suc n)) = omega arith in
    ap (λ i. advance_field columns i no_row) (backward_field-column columns n p (omega arith) ∙ e)
    ∙ step_back_field columns (columns - suc (suc n)) p (omega arith)

-- Over the fields of a row of fewer than 2 ^ 15 - 1 columns, the steps from `begin()` give each
-- column in order and then the number of the columns, which is `end()`. The reverse iterator stops
-- at `rend()` after as many steps as there are columns, but it gives the last column at none of
-- them: it starts with the last but one, and ends with an index that is no column.
pub fields_iterated :
    (columns : ℕ)
    → 0 < columns
    → columns < 32767
    → ((n : ℕ) → n ≤ columns → forward_field columns n ≡ n)
      × (backward_field columns columns ≡ rend_field)
      × ((n : ℕ)
          → suc n < columns
          → advance_field columns (backward_field columns n) no_row ≡ columns - suc (suc n))
      × (advance_field columns (backward_field columns (columns - 1)) no_row ≡ no_field)
fields_iterated columns z p =
    let last : backward_field columns (columns - 1) ≡ 0 =
      backward_field-column columns (columns - 1) p (omega arith) ∙ omega arith in
    let past : advance_field columns (backward_field columns (columns - 1)) no_row ≡ no_field =
      ap (λ i. advance_field columns i no_row) last ∙ back_of_first_field columns in
    let e : columns ≡ suc (columns - 1) = omega arith in
    (
      λ n h. forward_field-column columns n p h,
      ap (backward_field columns) e ∙ past,
      λ n h. backward_field-column columns (suc n) p h,
      past,
    )
