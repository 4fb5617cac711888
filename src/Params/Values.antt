-- ===== src/Params/Values.antt =====
-- A parameter's value in binary form: the `to_binary` of src/type_converter.h and the arrays of
-- src/param_serializer.h, beside the cell that the server reads.
use qbm_pgsql.Prelude.{
  ℕ, ◌^◌, ◌<◌, ◌≡◌, refl, ap, ◌∙◌, none, some, List, [], ◌∷◌, ◌++◌, if◌then◌else◌, length, map,
  arith, append_assoc, All,
}
use qbm_pgsql.Wire.{Host, network_bytes, big_endian, u32}
use qbm_pgsql.Wire.Laws.{network_bytes-eq, length-big_endian}
use qbm_pgsql.Row.Columns.{Column, column_bytes, columns_bytes}
use qbm_pgsql.Params.{
  Kind, boolean, a_boolean, a_smallint, a_integer, a_bigint, a_float, a_double, a_text, a_bytea,
  a_uuid, Scalar, type_oid, kind_of, Param, nullptr, missing, value, strings, chars, vector,
  array_oid, sized, to_binary, elements_bytes, array_buffer,
}

-- Two columns after one another.
pub columns_bytes-append :
    (xs ys : List Column) (s : List ℕ)
    → columns_bytes (xs ++ ys) s ≡ columns_bytes xs (columns_bytes ys s)
columns_bytes-append [] ys s = refl
columns_bytes-append (x ∷ xs) ys s = ap (column_bytes x) (columns_bytes-append xs ys s)

column_bytes-append : (c : Column) (x s : List ℕ) → column_bytes c (x ++ s) ≡ column_bytes c x ++ s
column_bytes-append c x s = simp append_assoc

pub columns_bytes-rest :
    (xs : List Column) (s : List ℕ) → columns_bytes xs s ≡ columns_bytes xs [] ++ s
columns_bytes-rest [] s = refl
columns_bytes-rest (x ∷ xs) s =
    ap (column_bytes x) (columns_bytes-rest xs s) ∙ column_bytes-append x (columns_bytes xs []) s

module _ ⦃h : Host⦄ where
  -- The bytes of a value: numbers in network order, floats as they lie in memory.
  abbrev pub payload : Scalar → List ℕ
  payload (a_boolean b) = (if b then 1 else 0) ∷ []
  payload (a_smallint v) = big_endian 2 v
  payload (a_integer v) = big_endian 4 v
  payload (a_bigint v) = big_endian 8 v
  payload (a_float v) = h.store 4 v
  payload (a_double v) = h.store 8 v
  payload (a_text s) = s
  payload (a_bytea s) = s
  payload (a_uuid s) = s

  -- The ranges of the C++ types.
  abbrev pub IsScalar : Scalar → Type 0
  IsScalar (a_boolean b) = Unit {0}
  IsScalar (a_smallint v) = v < 65536
  IsScalar (a_integer v) = v < 4294967296
  IsScalar (a_bigint v) = v < 18446744073709551616
  IsScalar (a_float v) = v < 4294967296
  IsScalar (a_double v) = v < 18446744073709551616
  IsScalar (a_text s) = length s < 2147483648
  IsScalar (a_bytea s) = length s < 2147483648
  IsScalar (a_uuid s) = length s ≡ 16

  pub sized-column_bytes :
      (s rest : List ℕ) → length s < 2147483648 → sized s ++ rest ≡ column_bytes (some s) rest
  unfolding sized
  sized-column_bytes s rest p =
      let e : u32 (length s) ≡ length s = omega arith in
      rw (e, network_bytes-eq 4 (length s) (omega arith))
        (append_assoc (big_endian 4 (length s)) s rest)

  fixed-column_bytes :
      (w : ℕ) (s rest : List ℕ)
      → w < 4294967296
      → length s ≡ w
      → (network_bytes 4 w ++ s) ++ rest ≡ column_bytes (some s) rest
  fixed-column_bytes w s rest p e =
      rw (network_bytes-eq 4 w (omega arith), e) (append_assoc (big_endian 4 w) s rest)

  number-column_bytes :
      (w v : ℕ) (rest : List ℕ)
      → w < 4294967296
      → v < 256 ^ w
      → (network_bytes 4 w ++ network_bytes w v) ++ rest ≡ column_bytes (some (big_endian w v)) rest
  number-column_bytes w v rest p q =
      rw (network_bytes-eq w v q)
        (fixed-column_bytes w (big_endian w v) rest p (length-big_endian w v))

  pub to_binary-column_bytes :
      (v : Scalar) (rest : List ℕ)
      → IsScalar v
      → to_binary v ++ rest ≡ column_bytes (some (payload v)) rest
  unfolding to_binary
  to_binary-column_bytes (a_boolean b) rest p =
      fixed-column_bytes 1 ((if b then 1 else 0) ∷ []) rest (omega arith) refl
  to_binary-column_bytes (a_smallint v) rest p =
      number-column_bytes 2 v rest (omega arith) (omega arith)
  to_binary-column_bytes (a_integer v) rest p =
      number-column_bytes 4 v rest (omega arith) (omega arith)
  to_binary-column_bytes (a_bigint v) rest p =
      number-column_bytes 8 v rest (omega arith) (omega arith)
  to_binary-column_bytes (a_float v) rest p =
      fixed-column_bytes 4 (h.store 4 v) rest (omega arith) (h.length-store 4 v)
  to_binary-column_bytes (a_double v) rest p =
      fixed-column_bytes 8 (h.store 8 v) rest (omega arith) (h.length-store 8 v)
  to_binary-column_bytes (a_text s) rest p = sized-column_bytes s rest p
  to_binary-column_bytes (a_bytea s) rest p = sized-column_bytes s rest p
  to_binary-column_bytes (a_uuid s) rest p = fixed-column_bytes 16 s rest (omega arith) p

  -- An array of one dimension from index 1 on, with no nulls.
  abbrev pub array_value : Kind → List Scalar → List ℕ
  array_value k es =
      big_endian 4 1
      ++ (big_endian 4 0
          ++ (big_endian 4 (type_oid k)
              ++ (big_endian 4 (length es)
                  ++ (big_endian 4 1 ++ columns_bytes (map (λ e. some (payload e)) es) []))))

  -- What the server receives for a parameter, and under which types.
  abbrev pub cells : Param → List Column
  cells nullptr = none ∷ []
  cells (missing k) = none ∷ []
  cells (value v) = some (payload v) ∷ []
  cells (strings ss) = map some ss
  cells (chars []) = none ∷ []
  cells (chars (c ∷ s)) = some (c ∷ s) ∷ []
  cells (vector k []) = none ∷ []
  cells (vector k (e ∷ es)) = some (array_value k (e ∷ es)) ∷ []

  abbrev pub oids : Param → List ℕ
  oids nullptr = 0 ∷ []
  oids (missing k) = type_oid k ∷ []
  oids (value v) = type_oid (kind_of v) ∷ []
  oids (strings ss) = map (λ s. 25) ss
  oids (chars []) = 0 ∷ []
  oids (chars (c ∷ s)) = 17 ∷ []
  oids (vector k es) = array_oid (type_oid k) ∷ []

  abbrev pub IsParam : Param → Type 0
  IsParam nullptr = Unit {0}
  IsParam (missing k) = Unit {0}
  IsParam (value v) = IsScalar v
  IsParam (strings ss) = All (λ s. length s < 2147483648) ss
  IsParam (chars s) = length s < 2147483648
  IsParam (vector k es) =
      All IsScalar es × (length es < 4294967296) × (length (array_value k es) < 2147483648)

  elements_bytes-columns_bytes :
      (es : List Scalar)
      → All IsScalar es
      → elements_bytes es ≡ columns_bytes (map (λ e. some (payload e)) es) []
  unfolding elements_bytes
  elements_bytes-columns_bytes [] p = refl
  elements_bytes-columns_bytes (e ∷ es) p =
      to_binary-column_bytes e (elements_bytes es) p.0
      ∙ ap (column_bytes (some (payload e))) (elements_bytes-columns_bytes es p.1)

  type_oid-lt : (k : Kind) → type_oid k < 4294967296
  unfolding type_oid
  type_oid-lt boolean = omega arith
  type_oid-lt _ = omega arith

  pub array_buffer-array_value :
      (k : Kind) (es : List Scalar)
      → All IsScalar es
      → length es < 4294967296
      → array_buffer k es ≡ array_value k es
  unfolding array_buffer
  array_buffer-array_value k es p q =
      let e : u32 (length es) ≡ length es = omega arith in
      let t = type_oid-lt k in
      rw (
        e,
        network_bytes-eq 4 1 (omega arith),
        network_bytes-eq 4 0 (omega arith),
        network_bytes-eq 4 (type_oid k) (omega arith),
        network_bytes-eq 4 (length es) (omega arith),
        elements_bytes-columns_bytes es p,
      )
