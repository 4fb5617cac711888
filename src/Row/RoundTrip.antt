-- ===== src/Row/RoundTrip.antt =====
-- A row is read back from the wire: `message::read(row_data &)`, then `is_null` and `field_data`.
use qbm_pgsql.Prelude.{
  get_elem?-lt, ℕ, zero, suc, ◌+◌, ◌*◌, ◌≤◌, ◌<◌, leb, ltb, ◌||◌, ◌≡◌, refl, ap, ◌∙◌, Bool, true,
  false, none, some, List, [], ◌∷◌, ◌++◌, length, get_elem?, length-append, arith, ok, throws,
  out_of_range, undefined, append_assoc, append-nil, take_all, take-append, drop-append,
}
use qbm_pgsql.Wire.{Host, big_endian}
use qbm_pgsql.Wire.Laws.{length-big_endian}
use qbm_pgsql.Row.{
  RowData, empty_row, is_null, field_data, read_row, read_columns, read_column, contains, row_size,
}
use qbm_pgsql.Row.Columns.{
  Column, column, value_of, size_of, values, offsets_from, nulls_from, columns_bytes, extended,
  read_columns-columns_bytes,
}
use qbm_pgsql.Message.Reads.{read_smallint-big_endian, read_integer-big_endian}

abbrev missing : Column → Bool
missing none = true
missing (some v) = false

contains-below : (cs : List Column) (k m : ℕ) → m < k → contains (nulls_from k cs) m ≡ false
contains-below [] k m h = refl
contains-below (none ∷ cs) k m h = ground (arith, contains-below cs (suc k) m)
contains-below (some v ∷ cs) k m h = contains-below cs (suc k) m (omega arith)

contains-nulls_from :
    (cs : List Column) (k j : ℕ) (c : Column)
    → get_elem? cs j ≡ some c
    → contains (nulls_from k cs) (k + j) ≡ missing c
contains-nulls_from [] k j c h = cc
contains-nulls_from (none ∷ cs) k zero c h = ground arith
contains-nulls_from (some v ∷ cs) k zero c h = ground (arith, contains-below cs (suc k) (k + zero))
contains-nulls_from (none ∷ cs) k (suc j) c h =
    let e : suc k + j ≡ k + suc j = omega arith in
    ground (arith, rw e at (contains-nulls_from cs (suc k) j c h))
contains-nulls_from (some v ∷ cs) k (suc j) c h =
    let e : suc k + j ≡ k + suc j = omega arith in rw e at (contains-nulls_from cs (suc k) j c h)

field_data-suc :
    (o : ℕ) (os d ns : List ℕ) (j : ℕ)
    → j < length os
    → field_data (record { offsets = o ∷ os; data_bytes = d; null_map = ns }) (suc j)
      ≡ field_data (record { offsets = os; data_bytes = d; null_map = ns }) j
unfolding field_data
field_data-suc o os d ns j h = ground arith

length-offsets_from : (d : ℕ) (cs : List Column) → length (offsets_from d cs) ≡ length cs
length-offsets_from d [] = refl
length-offsets_from d (c ∷ cs) = ap suc (length-offsets_from (d + length (value_of c)) cs)

field_data-offsets_from :
    (cs : List Column) (d : ℕ) (pre ns : List ℕ) (j : ℕ) (c : Column)
    → length pre ≡ d
    → d + length (values cs) < 2147483648
    → get_elem? cs j ≡ some c
    → field_data
        (record { offsets = offsets_from d cs; data_bytes = pre ++ values cs; null_map = ns })
        j
      ≡ ok (value_of c)
unfolding field_data
field_data-offsets_from [] d pre ns j c e p h = cc
field_data-offsets_from (x ∷ []) d pre ns zero c e p h = ground (
  arith,
  append-nil (value_of x),
  drop-append d pre (value_of x) e,
  length-append pre (value_of x),
  take_all (value_of x),
)
field_data-offsets_from (x ∷ y ∷ cs) d pre ns zero c e p h =
    let rest = value_of y ++ values cs in
    ground (
      arith,
      drop-append d pre (value_of x ++ rest) e,
      length-append pre (value_of x ++ rest),
      length-append (value_of x) rest,
      take-append (length (value_of x)) (value_of x) rest refl,
    )
field_data-offsets_from (x ∷ cs) d pre ns (suc j) c e p h =
    field_data-suc d _ _ ns j
      (omega (arith, get_elem?-lt cs j c h, length-offsets_from (d + length (value_of x)) cs))
    ∙ rw (← append_assoc pre (value_of x) (values cs)) (
        field_data-offsets_from cs (d + length (value_of x)) (pre ++ value_of x) ns j c
          (omega (arith, length-append pre (value_of x)))
          (omega (arith, length-append (value_of x) (values cs))) h)

abbrev pub received : List Column → RowData
received cs = extended empty_row 0 cs

field_data-received :
    (cs : List Column) (i : ℕ) (c : Column)
    → length (values cs) < 2147483648
    → get_elem? cs i ≡ some c
    → field_data (received cs) i ≡ ok (value_of c)
field_data-received cs i c p h =
    field_data-offsets_from cs 0 [] (nulls_from 0 cs) i c refl (omega arith) h

pub column-received :
    (cs : List Column) (i : ℕ) (c : Column)
    → length (values cs) < 2147483648
    → get_elem? cs i ≡ some c
    → column (received cs) i ≡ ok c
unfolding column is_null
column-received cs i c p h =
    let e : 0 + i ≡ i = omega arith in
    ground (
      arith,
      length-offsets_from 0 cs,
      get_elem?-lt cs i c h,
      rw e at (contains-nulls_from cs 0 i c h),
      field_data-received cs i c p h,
    )

pub column-out_of_range :
    (cs : List Column) (i : ℕ) → length cs ≤ i → column (received cs) i ≡ throws out_of_range
unfolding column is_null
column-out_of_range cs i p = ground (arith, length-offsets_from 0 cs)

pub length-columns_bytes :
    (cs : List Column) (s : List ℕ)
    → length (columns_bytes cs s) ≡ 4 * length cs + length (values cs) + length s
length-columns_bytes [] s = omega arith
length-columns_bytes (c ∷ cs) s = omega (
  arith,
  length-append (big_endian 4 (size_of c)) (value_of c ++ columns_bytes cs s),
  length-append (value_of c) (columns_bytes cs s),
  length-append (value_of c) (values cs),
  length-big_endian 4 (size_of c),
  length-columns_bytes cs s,
)

roomy :
    (k len : ℕ)
    → k < 32768
    → 4 * (k + 1) + 2 ≤ len
    → leb 32768 k || ltb len (4 * (k + 1) + 2) ≡ false
roomy k len p q = ground arith

module _ ⦃h : Host⦄ where
  pub read_row-columns_bytes :
      (cs : List Column)
      → length cs < 32768
      → length (values cs) < 2147483648
      → let body = big_endian 2 (length cs) ++ columns_bytes cs [] in
        read_row (4 + length body) body ≡ ok (some (received cs), [])
  unfolding read_row
  read_row-columns_bytes cs n p =
      let body = columns_bytes cs [] in
      rw
        (
          read_smallint-big_endian (length cs) body (omega arith),
          roomy (length cs) (4 + length (big_endian 2 (length cs) ++ body)) n (
              omega (
                arith,
                length-append (big_endian 2 (length cs)) body,
                length-big_endian 2 (length cs),
                length-columns_bytes cs [],
              )),
        )
        (read_columns-columns_bytes cs 0 empty_row [] (omega arith) (omega arith))

  -- A data row of fewer than 2 ^ 15 columns with fewer than 2 ^ 31 bytes of values is read whole,
  -- and the row read has those columns: each index below their number gives the column that was
  -- sent, null or its value, and any other index throws `out_of_range`. `field_data` gives the
  -- bytes of a value, and at a null no bytes: it does not throw there.
  pub read_row_faithful :
      (cs : List Column)
      → length cs < 32768
      → length (values cs) < 2147483648
      → let body = big_endian 2 (length cs) ++ columns_bytes cs [] in
        (row : RowData) × (read_row (4 + length body) body ≡ ok (some row, []))
        × (row_size row ≡ length cs)
        × ((i : ℕ) (c : Column) → get_elem? cs i ≡ some c → column row i ≡ ok c)
        × ((i : ℕ) → length cs ≤ i → column row i ≡ throws out_of_range)
        × ((i : ℕ) (v : List ℕ) → get_elem? cs i ≡ some (some v) → field_data row i ≡ ok v)
        × ((i : ℕ) → get_elem? cs i ≡ some none → field_data row i ≡ ok [])
  unfolding row_size
  read_row_faithful cs n p = (
    received cs,
    read_row-columns_bytes cs n p,
    omega (arith, length-offsets_from 0 cs),
    λ i c. column-received cs i c p,
    column-out_of_range cs,
    λ i v. field_data-received cs i (some v) p,
    λ i. field_data-received cs i none p,
  )

  -- The copy of a value does not look at the end of the message: a row of one column whose size,
  -- above 0 and below 2 ^ 31, is more than the bytes that follow is read past the end, whatever
  -- length of at least 10 the message has.
  pub read_row_overrun :
      (len col_size : ℕ) (s : List ℕ)
      → 10 ≤ len
      → length s < col_size
      → col_size < 2147483648
      → read_row len (big_endian 2 1 ++ (big_endian 4 col_size ++ s)) ≡ undefined
  unfolding read_row read_columns read_column
  read_row_overrun len col_size s p q r =
      rw
        (
          read_smallint-big_endian 1 (big_endian 4 col_size ++ s) (omega arith),
          roomy 1 len (omega arith) (omega arith),
          read_integer-big_endian col_size s (omega arith),
        )
        (ground arith)
