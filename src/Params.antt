-- ===== src/Params.antt =====
-- src/param_serializer.h, with the types of src/type_mapping.h and the `to_binary` of
-- src/type_converter.h: query parameters as one buffer in the protocol's binary form.
pub mod Values
pub mod Layout
pub mod Typed
pub mod Adders
use qbm_pgsql.Prelude.{
  ℕ, zero, suc, ◌+◌, Bool, true, false, Option, none, some, List, [], ◌∷◌, ◌++◌, ◌==◌,
  if◌then◌else◌, length, null,
}
use qbm_pgsql.Wire.{Host, network_bytes, u16, u32}

-- The C++ types that a parameter may have.
pub data Kind : Type 0 where
  boolean smallint integer bigint float double text bytea uuid : Kind

-- `type_mapping<T>::type_oid`.
unfoldable pub type_oid : Kind → ℕ
type_oid boolean = 16
type_oid smallint = 21
type_oid integer = 23
type_oid bigint = 20
type_oid float = 700
type_oid double = 701
type_oid text = 25
type_oid bytea = 17
type_oid uuid = 2950

-- A value of such a type; numbers and floats are bit patterns. An `std::optional` that holds a
-- value is converted as that value.
pub data Scalar : Type 0 where
  a_boolean : Bool → Scalar
  a_smallint a_integer a_bigint a_float a_double : ℕ → Scalar
  a_text a_bytea a_uuid : List ℕ → Scalar

unfoldable pub kind_of : Scalar → Kind
kind_of (a_boolean b) = boolean
kind_of (a_smallint v) = smallint
kind_of (a_integer v) = integer
kind_of (a_bigint v) = bigint
kind_of (a_float v) = float
kind_of (a_double v) = double
kind_of (a_text s) = text
kind_of (a_bytea s) = bytea
kind_of (a_uuid s) = uuid

-- The types that `add_param` tells apart: `nullptr`, an empty `std::optional<T>`, a value, a
-- vector of strings, of characters, and of values of another type.
pub data Param : Type 0 where
  nullptr : Param
  missing : Kind → Param
  value : Scalar → Param
  strings : List (List ℕ) → Param
  chars : List ℕ → Param
  vector : Kind → List Scalar → Param

pub record ParamSerializer : Type 0 where
  pub format_codes_buffer : List ℕ
  pub params_buffer : List ℕ
  pub param_types : List ℕ

abbrev pub cleared : ParamSerializer
cleared = record { format_codes_buffer = []; params_buffer = []; param_types = [] }

-- `reset` and `param_count`.
unfoldable pub reset : ParamSerializer → ParamSerializer
reset p = cleared

unfoldable pub param_count : ParamSerializer → ℕ
param_count p = u16 (length p.param_types)

abbrev pub push_type : ParamSerializer → ℕ → ParamSerializer
push_type p oid = record p { param_types = p.param_types ++ oid ∷ [] }

abbrev pub push_bytes : ParamSerializer → List ℕ → ParamSerializer
push_bytes p bytes = record p { params_buffer = p.params_buffer ++ bytes }

-- The array type of an element type.
unfoldable pub array_oid : ℕ → ℕ
array_oid element_oid =
    if element_oid == 16
    then 1000
    else if element_oid == 21
    then 1005
    else if element_oid == 23
    then 1007
    else if element_oid == 20
    then 1016
    else if element_oid == 700
    then 1021
    else if element_oid == 701
    then 1022
    else if element_oid == 25
    then 1009
    else 2277

module _ ⦃h : Host⦄ where
  -- A length and the bytes.
  unfoldable pub sized : List ℕ → List ℕ
  sized bytes = network_bytes 4 (u32 (length bytes)) ++ bytes

  -- `TypeConverter<T>::to_binary`: what it appends to a buffer. A float is copied as it lies in
  -- memory.
  unfoldable pub to_binary : Scalar → List ℕ
  unfolding sized
  to_binary (a_boolean b) = network_bytes 4 1 ++ (if b then 1 else 0) ∷ []
  to_binary (a_smallint v) = network_bytes 4 2 ++ network_bytes 2 v
  to_binary (a_integer v) = network_bytes 4 4 ++ network_bytes 4 v
  to_binary (a_bigint v) = network_bytes 4 8 ++ network_bytes 8 v
  to_binary (a_float v) = network_bytes 4 4 ++ h.store 4 v
  to_binary (a_double v) = network_bytes 4 8 ++ h.store 8 v
  to_binary (a_text s) = sized s
  to_binary (a_bytea s) = sized s
  to_binary (a_uuid s) = network_bytes 4 16 ++ s

  unfoldable pub null_bytes : List ℕ
  null_bytes = network_bytes 4 4294967295

  unfoldable pub add_null : ParamSerializer → ParamSerializer
  unfolding null_bytes
  add_null p = push_bytes (push_type p 0) null_bytes

  -- One parameter for each string.
  pub add_string_vector : ParamSerializer → List (List ℕ) → ParamSerializer
  unfolding sized
  add_string_vector p [] = p
  add_string_vector p (s ∷ ss) = add_string_vector (push_bytes (push_type p 25) (sized s)) ss

  unfoldable pub add_byte_array : ParamSerializer → List ℕ → ParamSerializer
  unfolding sized
  add_byte_array p bytes = push_bytes (push_type p 17) (sized bytes)

  pub elements_bytes : List Scalar → List ℕ
  unfolding to_binary
  elements_bytes [] = []
  elements_bytes (e ∷ es) = to_binary e ++ elements_bytes es

  -- The header of an array of one dimension, and its elements.
  unfoldable pub array_buffer : Kind → List Scalar → List ℕ
  unfolding elements_bytes type_oid
  array_buffer k es =
      network_bytes 4 1
      ++ (network_bytes 4 0
          ++ (network_bytes 4 (type_oid k)
              ++ (network_bytes 4 (u32 (length es)) ++ (network_bytes 4 1 ++ elements_bytes es))))

  unfoldable pub add_vector : ParamSerializer → Kind → List Scalar → ParamSerializer
  unfolding array_buffer null_bytes sized array_oid
  add_vector p k [] = push_bytes (push_type p (array_oid (type_oid k))) null_bytes
  add_vector p k (e ∷ es) =
      push_bytes (push_type p (array_oid (type_oid k))) (sized (array_buffer k (e ∷ es)))

  unfoldable pub add_param : ParamSerializer → Param → ParamSerializer
  unfolding add_null add_string_vector add_byte_array add_vector null_bytes to_binary kind_of
  add_param p nullptr = add_null p
  add_param p (missing k) = push_bytes (push_type p (type_oid k)) null_bytes
  add_param p (value v) = push_bytes (push_type p (type_oid (kind_of v))) (to_binary v)
  add_param p (strings ss) = add_string_vector p ss
  add_param p (chars s) = if null s then add_null p else add_byte_array p s
  add_param p (vector k es) = add_vector p k es

  pub add_params : ParamSerializer → List Param → ParamSerializer
  unfolding add_param
  add_params p [] = p
  add_params p (a ∷ rest) = add_params (add_param p a) rest

  -- The count is known only at the end, and goes in front.
  unfoldable pub serialize_params : ParamSerializer → List Param → ParamSerializer
  unfolding reset add_params param_count
  serialize_params p params =
      let q = add_params (reset p) params in
      record q { params_buffer = network_bytes 2 (param_count q) ++ q.params_buffer }
