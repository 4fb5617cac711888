-- ===== src/Params/Typed.antt =====
-- The types that src/param_serializer.h announces for the values that it sends.
use qbm_pgsql.Prelude.{
  ℕ, ◌<◌, ◌≡◌, refl, ◌⊎◌, inl, inr, none, some, List, [], ◌∷◌, ◌++◌, length, map, ◌==◌, ◌||◌,
  if◌then◌else◌, All,
}
use qbm_pgsql.Wire.{Host, big_endian}
use qbm_pgsql.Wire.Laws.{length-big_endian}
use qbm_pgsql.Row.Columns.{Column, columns_bytes}
use qbm_pgsql.PgTypes.Oids.{Oid, underlying}
use qbm_pgsql.Params.{
  Kind, boolean, smallint, integer, bigint, float, double, text, bytea, uuid, Scalar, a_boolean,
  a_smallint, a_integer, a_bigint, a_float, a_double, a_text, a_bytea, a_uuid, type_oid, kind_of,
  array_oid, Param, nullptr, missing, value, strings, chars, vector, ParamSerializer,
  serialize_params,
}
use qbm_pgsql.Params.Values.{payload, IsScalar, cells, oids, IsParam}
use qbm_pgsql.Params.Layout.{all_cells, all_oids, serialize_params-columns_bytes}

-- A type of the catalogue: an enumerator of `oid`, or the array of booleans, of bigints or of
-- doubles, which have none.
abbrev pub Known : ℕ → Type 0
Known t = ((o : Oid) × (underlying o ≡ t)) ⊎ ((t ≡ 1000) ⊎ ((t ≡ 1016) ⊎ (t ≡ 1022)))

-- The bytes of every value of a type in the binary format of PostgreSQL; 0 where they differ.
abbrev pub width : ℕ → ℕ
width t =
    if t == 16
    then 1
    else if t == 21
    then 2
    else if t == 23 || t == 700
    then 4
    else if t == 20 || t == 701
    then 8
    else if t == 2950
    then 16
    else 0

-- Only a null may have no type.
abbrev pub HasType : ℕ → Column → Type 0
HasType t none = (t ≡ 0) ⊎ Known t
HasType t (some v) = Known t × ((width t ≡ 0) ⊎ (length v ≡ width t))

abbrev pub Typed : List ℕ → List Column → Type 0
Typed [] [] = Unit {0}
Typed [] (c ∷ cs) = ⊥
Typed (t ∷ ts) [] = ⊥
Typed (t ∷ ts) (c ∷ cs) = HasType t c × Typed ts cs

Typed-append :
    (ts us : List ℕ) (cs ds : List Column) → Typed ts cs → Typed us ds → Typed (ts ++ us) (cs ++ ds)
Typed-append [] us [] ds h k = k
Typed-append [] us (c ∷ cs) ds h k = absurd h
Typed-append (t ∷ ts) us [] ds h k = absurd h
Typed-append (t ∷ ts) us (c ∷ cs) ds h k = (h.0, Typed-append ts us cs ds h.1 k)

type_oid-Known : (k : Kind) → Known (type_oid k)
unfolding type_oid underlying
type_oid-Known boolean = inl (Oid.boolean, refl)
type_oid-Known smallint = inl (Oid.int2, refl)
type_oid-Known integer = inl (Oid.int4, refl)
type_oid-Known bigint = inl (Oid.int8, refl)
type_oid-Known float = inl (Oid.float4, refl)
type_oid-Known double = inl (Oid.float8, refl)
type_oid-Known text = inl (Oid.text, refl)
type_oid-Known bytea = inl (Oid.bytea, refl)
type_oid-Known uuid = inl (Oid.uuid, refl)

-- The array of a kind, whose values may be of any size.
array_oid-Known : (k : Kind) → Known (array_oid (type_oid k)) × (width (array_oid (type_oid k)) ≡ 0)
unfolding array_oid type_oid underlying
array_oid-Known boolean = (inr (inl refl), refl)
array_oid-Known smallint = (inl (Oid.int2_array, refl), refl)
array_oid-Known integer = (inl (Oid.int4_array, refl), refl)
array_oid-Known bigint = (inr (inr (inl refl)), refl)
array_oid-Known float = (inl (Oid.float4_array, refl), refl)
array_oid-Known double = (inr (inr (inr refl)), refl)
array_oid-Known text = (inl (Oid.text_array, refl), refl)
array_oid-Known bytea = (inl (Oid.any_array, refl), refl)
array_oid-Known uuid = (inl (Oid.any_array, refl), refl)

module _ ⦃h : Host⦄ where
  payload-width :
      (v : Scalar)
      → IsScalar v
      → (width (type_oid (kind_of v)) ≡ 0) ⊎ (length (payload v) ≡ width (type_oid (kind_of v)))
  unfolding type_oid kind_of
  payload-width (a_boolean b) p = inr refl
  payload-width (a_smallint v) p = inr (length-big_endian 2 v)
  payload-width (a_integer v) p = inr (length-big_endian 4 v)
  payload-width (a_bigint v) p = inr (length-big_endian 8 v)
  payload-width (a_float v) p = inr (h.length-store 4 v)
  payload-width (a_double v) p = inr (h.length-store 8 v)
  payload-width (a_text s) p = inl refl
  payload-width (a_bytea s) p = inl refl
  payload-width (a_uuid s) p = inr p

  strings-Typed : (ss : List (List ℕ)) → Typed (map (λ s. 25) ss) (map some ss)
  unfolding type_oid
  strings-Typed [] = tt
  strings-Typed (s ∷ ss) = ((type_oid-Known text, inl refl), strings-Typed ss)

  cells-Typed : (a : Param) → IsParam a → Typed (oids a) (cells a)
  unfolding type_oid
  cells-Typed nullptr p = (inl refl, tt)
  cells-Typed (missing k) p = (inr (type_oid-Known k), tt)
  cells-Typed (value v) p = ((type_oid-Known (kind_of v), payload-width v p), tt)
  cells-Typed (strings ss) p = strings-Typed ss
  cells-Typed (chars []) p = (inl refl, tt)
  cells-Typed (chars (c ∷ s)) p = ((type_oid-Known bytea, inl refl), tt)
  cells-Typed (vector k []) p = (inr (array_oid-Known k).0, tt)
  cells-Typed (vector k (e ∷ es)) p = (((array_oid-Known k).0, inl (array_oid-Known k).1), tt)

  all_cells-Typed :
      (params : List Param) → All IsParam params → Typed (all_oids params) (all_cells params)
  all_cells-Typed [] p = tt
  all_cells-Typed (a ∷ rest) p =
      Typed-append (oids a) (all_oids rest) (cells a) (all_cells rest) (cells-Typed a p.0)
        (all_cells-Typed rest p.1)

  -- The buffer that parameters in the ranges of their types, with fewer than 2 ^ 16 values in all,
  -- are serialized into is the count of some values and these values, each of which is announced
  -- under a type of the catalogue, or is a null without a type; and a value whose type has values of
  -- one size only has this size.
  pub serialize_params-Typed :
      (p : ParamSerializer) (params : List Param)
      → All IsParam params
      → length (all_cells params) < 65536
      → (cs : List Column) × ((serialize_params p params).params_buffer
          ≡ big_endian 2 (length cs) ++ columns_bytes cs [])
        × Typed (serialize_params p params).param_types cs
  serialize_params-Typed p params v n =
      let (sent, types, same) = serialize_params-columns_bytes p params v n in
      (all_cells params, sent, rw types (all_cells-Typed params v))
