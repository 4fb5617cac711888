-- ===== src/Params/Layout.antt =====
-- The buffer of src/param_serializer.h as the server reads it: a count, and for each parameter a
-- size and the bytes, or a size of -1 for a null. It is the layout of the columns of a data row.
use qbm_pgsql.Prelude.{
  length-map, ℕ, ◌<◌, ◌≡◌, refl, sym, ap, ◌∙◌, none, some, List, [], ◌∷◌, ◌++◌, length, map, arith,
  append-nil, append_assoc, length-append, All,
}
use qbm_pgsql.Wire.{Host, big_endian, u16}
use qbm_pgsql.Wire.Laws.{network_bytes-eq}
use qbm_pgsql.Row.Columns.{Column, column_bytes, columns_bytes}
use qbm_pgsql.Params.{
  type_oid, kind_of, Param, nullptr, missing, value, strings, chars, vector, ParamSerializer,
  array_oid, sized, to_binary, null_bytes, add_string_vector, add_param, add_params,
  serialize_params, push_type, push_bytes, cleared,
}
use qbm_pgsql.Params.Values.{
  payload, array_value, columns_bytes-append, columns_bytes-rest, sized-column_bytes,
  to_binary-column_bytes, array_buffer-array_value, cells, oids, IsParam,
}

module _ ⦃h : Host⦄ where
  -- The serializer with the parts of some parameters added.
  abbrev pub extended : ParamSerializer → List Column → List ℕ → ParamSerializer
  extended p cs ts = record {
    format_codes_buffer = p.format_codes_buffer;
    params_buffer = p.params_buffer ++ columns_bytes cs [];
    param_types = p.param_types ++ ts;
  }

  extended-extended :
      (p : ParamSerializer) (cs ds : List Column) (ts us : List ℕ)
      → extended (extended p cs ts) ds us ≡ extended p (cs ++ ds) (ts ++ us)
  extended-extended p cs ds ts us = rw (
    columns_bytes-append cs ds [],
    columns_bytes-rest cs (columns_bytes ds []),
    append_assoc p.params_buffer (columns_bytes cs []) (columns_bytes ds []),
    append_assoc p.param_types ts us,
  )

  one-extended :
      (p : ParamSerializer) (t : ℕ) (bytes : List ℕ) (c : Column)
      → bytes ++ [] ≡ column_bytes c []
      → push_bytes (push_type p t) bytes ≡ extended p (c ∷ []) (t ∷ [])
  one-extended p t bytes c e =
      let e' : bytes ≡ column_bytes c [] = sym (append-nil bytes) ∙ e in rw e'

  null-extended :
      (p : ParamSerializer) (t : ℕ)
      → push_bytes (push_type p t) null_bytes ≡ extended p (none ∷ []) (t ∷ [])
  unfolding null_bytes
  null-extended p t =
      one-extended p t _ none (ap (λ b. b ++ []) (network_bytes-eq 4 4294967295 (omega arith)))

  add_string_vector-extended :
      (p : ParamSerializer) (ss : List (List ℕ))
      → All (λ s. length s < 2147483648) ss
      → add_string_vector p ss ≡ extended p (map some ss) (map (λ s. 25) ss)
  unfolding add_string_vector
  add_string_vector-extended p [] a = simp append-nil
  add_string_vector-extended p (s ∷ ss) a =
      rw (one-extended p 25 (sized s) (some s) (sized-column_bytes s [] a.0)) (
        add_string_vector-extended (extended p (some s ∷ []) (25 ∷ [])) ss a.1
        ∙ extended-extended p (some s ∷ []) (map some ss) (25 ∷ []) (map (λ s. 25) ss))

  add_param-extended :
      (p : ParamSerializer) (a : Param) → IsParam a → add_param p a ≡ extended p (cells a) (oids a)
  unfolding add_param
  add_param-extended p nullptr v = null-extended p 0
  add_param-extended p (missing k) v = null-extended p (type_oid k)
  add_param-extended p (value x) v =
      one-extended p (type_oid (kind_of x)) (to_binary x) (some (payload x))
        (to_binary-column_bytes x [] v)
  add_param-extended p (strings ss) v = add_string_vector-extended p ss v
  add_param-extended p (chars []) v = null-extended p 0
  add_param-extended p (chars (c ∷ s)) v =
      one-extended p 17 (sized (c ∷ s)) (some (c ∷ s)) (sized-column_bytes (c ∷ s) [] v)
  add_param-extended p (vector k []) v = null-extended p (array_oid (type_oid k))
  add_param-extended p (vector k (e ∷ es)) v = rw (array_buffer-array_value k (e ∷ es) v.0 v.1) (
      one-extended p (array_oid (type_oid k)) (sized (array_value k (e ∷ es)))
        (some (array_value k (e ∷ es))) (sized-column_bytes (array_value k (e ∷ es)) [] v.2))

  abbrev pub all_cells : List Param → List Column
  all_cells [] = []
  all_cells (a ∷ rest) = cells a ++ all_cells rest

  abbrev pub all_oids : List Param → List ℕ
  all_oids [] = []
  all_oids (a ∷ rest) = oids a ++ all_oids rest

  add_params-extended :
      (params : List Param) (p : ParamSerializer)
      → All IsParam params
      → add_params p params ≡ extended p (all_cells params) (all_oids params)
  unfolding add_params
  add_params-extended [] p v = simp append-nil
  add_params-extended (a ∷ rest) p v = rw (add_param-extended p a v.0) (
      add_params-extended rest (extended p (cells a) (oids a)) v.1
      ∙ extended-extended p (cells a) (all_cells rest) (oids a) (all_oids rest))

  length-oids : (a : Param) → length (oids a) ≡ length (cells a)
  length-oids nullptr = refl
  length-oids (missing k) = refl
  length-oids (value v) = refl
  length-oids (strings ss) = length-map (λ s. 25) ss ∙ sym (length-map some ss)
  length-oids (chars []) = refl
  length-oids (chars (c ∷ s)) = refl
  length-oids (vector k []) = refl
  length-oids (vector k (e ∷ es)) = refl

  length-all_oids : (params : List Param) → length (all_oids params) ≡ length (all_cells params)
  length-all_oids [] = refl
  length-all_oids (a ∷ rest) = omega (
    arith,
    length-append (oids a) (all_oids rest),
    length-append (cells a) (all_cells rest),
    length-oids a,
    length-all_oids rest,
  )

  -- Parameters in the ranges of their types, with fewer than 2 ^ 16 values in all, are serialized,
  -- whatever the serializer held, into the count of the values and then each value with its size,
  -- a null with the size -1, in order, beside one type for each value.
  pub serialize_params-columns_bytes :
      (p : ParamSerializer) (params : List Param)
      → All IsParam params
      → length (all_cells params) < 65536
      → (serialize_params p params).params_buffer
          ≡ big_endian 2 (length (all_cells params)) ++ columns_bytes (all_cells params) []
        × ((serialize_params p params).param_types ≡ all_oids params)
        × (length (all_oids params) ≡ length (all_cells params))
  unfolding serialize_params
  serialize_params-columns_bytes p params v n =
      let counted : u16 (length (all_oids params)) ≡ length (all_cells params) =
        omega (arith, length-all_oids params) in
      (
        rw (
          add_params-extended params cleared v,
          counted,
          network_bytes-eq 2 (length (all_cells params)) (omega arith),
        ),
        rw (add_params-extended params cleared v),
        length-all_oids params,
      )
