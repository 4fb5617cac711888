-- ===== src/Params/Adders/Dispatch.antt =====
-- src/param_serializer.tpp: the traits that choose a function `add_` by the type of a parameter.
use qbm_pgsql.Prelude.{
  ℕ, ◌-◌, ◌*◌, ◌%◌, ◌^◌, Bool, ◌&&◌, Option, none, some, List, if◌then◌else◌, leb, null,
}
use qbm_pgsql.Wire.{Host}
use qbm_pgsql.Params.{
  Kind, Scalar, Param, ParamSerializer, add_null, add_string_vector, add_byte_array, add_vector,
  add_param,
}
use qbm_pgsql.Params.Adders.{
  add_bool, add_smallint, add_integer, add_bigint, add_float, add_double, add_string,
  add_string_view, add_cstring,
}

-- An integer of a type of `size` bytes as one of `target` bytes.
unfoldable pub converted : ℕ → ℕ → Bool → ℕ → ℕ
converted target size is_signed v =
    if is_signed && leb (2 ^ (8 * size - 1)) v
    then (2 ^ (8 * target) - (2 ^ (8 * size) - v)) % 2 ^ (8 * target)
    else v % 2 ^ (8 * target)

-- The types that have traits: `integral` has the size of the type, whether it is signed, and the
-- value; a floating point type is `float` or `double` by its size. An `std::optional` holds any
-- parameter.
pub data Argument : Type 0 where
  nullptr_t : Argument
  bool : Bool → Argument
  integral : ℕ → Bool → ℕ → Argument
  floating_point : ℕ → ℕ → Argument
  string string_view : List ℕ → Argument
  cstring : Option (List ℕ) → Argument
  string_vector : List (List ℕ) → Argument
  char_vector unsigned_char_vector : List ℕ → Argument
  optional : Option Param → Argument
  other_vector : Kind → List Scalar → Argument

module _ ⦃h : Host⦄ where
  -- `param_serializer_traits<T>::add_param`
  unfoldable pub traits_add_param : ParamSerializer → Argument → ParamSerializer
  unfolding add_null add_bool add_smallint add_integer add_bigint add_float add_double add_string
      add_string_view add_cstring add_string_vector add_byte_array add_vector add_param converted
  traits_add_param p nullptr_t = add_null p
  traits_add_param p (bool b) = add_bool p b
  traits_add_param p (integral size is_signed v) =
      if leb size 2
      then add_smallint p (converted 2 size is_signed v)
      else if leb size 4
      then add_integer p (converted 4 size is_signed v)
      else add_bigint p (converted 8 size is_signed v)
  traits_add_param p (floating_point size v) = if leb size 4 then add_float p v else add_double p v
  traits_add_param p (string s) = add_string p s
  traits_add_param p (string_view s) = add_string_view p s
  traits_add_param p (cstring s) = add_cstring p s
  traits_add_param p (string_vector ss) = add_string_vector p ss
  traits_add_param p (char_vector s) = if null s then add_null p else add_byte_array p s
  traits_add_param p (unsigned_char_vector s) = if null s then add_null p else add_byte_array p s
  traits_add_param p (optional none) = add_null p
  traits_add_param p (optional (some a)) = add_param p a
  traits_add_param p (other_vector k es) = add_vector p k es
