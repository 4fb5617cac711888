-- ===== src/Params/Adders/Laws.antt =====
-- The functions of src/param_serializer.h for single types against `add_param`.
use qbm_pgsql.Prelude.{
  ℕ, ◌≡◌, refl, ap, sym, Bool, true, none, some, List, [], ◌∷◌, ◌++◌, if◌then◌else◌, length, leb,
  ltb, append_assoc, append-nil, map, inl, inr, Bool-cases, arith,
}
use qbm_pgsql.Wire.{Host, network_bytes, u32}
use qbm_pgsql.Params.{
  text, Scalar, a_boolean, a_smallint, a_integer, a_bigint, a_float, a_double, a_text, a_bytea,
  Param, nullptr, missing, value, strings, chars, vector, ParamSerializer, sized, to_binary,
  type_oid, kind_of, add_byte_array, add_param, add_params, push_type, push_bytes,
}
use qbm_pgsql.Params.Adders.{
  Call, integer_to, write_length, write_bool, write_smallint, write_integer, write_bigint,
  write_float, write_double, write_string, write_string_view, write_cstring, add_bool, add_smallint,
  add_integer, add_bigint, add_float, add_double, add_string, add_string_view, add_cstring,
  add_optional, add_call, add_calls,
}
use qbm_pgsql.Params.Adders.Dispatch.{Argument, converted, traits_add_param}

-- The parameter of `add_param` that a call stands for: a null C string is a text that is missing, and
-- an optional that is empty has no type.
abbrev pub param_of : Call → Param
param_of Call.nullptr = nullptr
param_of (Call.bool b) = value (a_boolean b)
param_of (Call.smallint v) = value (a_smallint v)
param_of (Call.integer v) = value (a_integer v)
param_of (Call.bigint v) = value (a_bigint v)
param_of (Call.float v) = value (a_float v)
param_of (Call.double v) = value (a_double v)
param_of (Call.string s) = value (a_text s)
param_of (Call.string_view s) = value (a_text s)
param_of (Call.byte_array s) = value (a_bytea s)
param_of (Call.cstring none) = missing text
param_of (Call.cstring (some s)) = value (a_text s)
param_of (Call.optional_string none) = nullptr
param_of (Call.optional_string (some s)) = value (a_text s)
param_of (Call.string_vector ss) = strings ss

-- The parameter of `add_param` that the traits stand for. An optional that is empty has no type.
abbrev integer_of : ℕ → Bool → ℕ → Scalar
integer_of size is_signed v =
    if leb size 2
    then a_smallint (converted 2 size is_signed v)
    else if leb size 4
    then a_integer (converted 4 size is_signed v)
    else a_bigint (converted 8 size is_signed v)

abbrev pub param_for : Argument → Param
param_for Argument.nullptr_t = nullptr
param_for (Argument.bool b) = value (a_boolean b)
param_for (Argument.integral size is_signed v) = value (integer_of size is_signed v)
param_for (Argument.floating_point size v) = value (if leb size 4 then a_float v else a_double v)
param_for (Argument.string s) = value (a_text s)
param_for (Argument.string_view s) = value (a_text s)
param_for (Argument.cstring none) = missing text
param_for (Argument.cstring (some s)) = value (a_text s)
param_for (Argument.string_vector ss) = strings ss
param_for (Argument.char_vector s) = chars s
param_for (Argument.unsigned_char_vector s) = chars s
param_for (Argument.optional none) = nullptr
param_for (Argument.optional (some a)) = a
param_for (Argument.other_vector k es) = vector k es

module _ ⦃h : Host⦄ where
  -- A length and then a value are one value with its length.
  written :
      (p : ParamSerializer) (n : ℕ) (bytes : List ℕ)
      → push_bytes (write_length p n) bytes ≡ push_bytes p (network_bytes 4 n ++ bytes)
  unfolding write_length integer_to
  written p n bytes =
      ap (λ b. record p { params_buffer = b })
        (append_assoc p.params_buffer (network_bytes 4 n) bytes)

  only-length : (p : ParamSerializer) → write_length p 0 ≡ push_bytes p (sized [])
  unfolding write_length integer_to sized
  only-length p = ap (λ b. push_bytes p b) (sym (append-nil (network_bytes 4 0)))

  text-sized :
      (p : ParamSerializer) (s : List ℕ)
      → (add_string p s ≡ add_param p (value (a_text s)))
        × (add_string_view p s ≡ add_param p (value (a_text s)))
        × (add_cstring p (some s) ≡ add_param p (value (a_text s)))
  unfolding add_string add_string_view add_cstring write_string write_string_view write_cstring
      add_param to_binary sized type_oid kind_of
  text-sized p [] =
      (only-length (push_type p 25), only-length (push_type p 25), only-length (push_type p 25))
  text-sized p (c ∷ s) =
      let both = written (push_type p 25) (u32 (length (c ∷ s))) (c ∷ s) in
      let positive : ltb 0 (length (c ∷ s)) ≡ true = ground arith in (both, both, rw positive both)

  numbers :
      (p : ParamSerializer) (v : ℕ)
      → (add_smallint p v ≡ add_param p (value (a_smallint v)))
        × (add_integer p v ≡ add_param p (value (a_integer v)))
        × (add_bigint p v ≡ add_param p (value (a_bigint v)))
        × (add_float p v ≡ add_param p (value (a_float v)))
        × (add_double p v ≡ add_param p (value (a_double v)))
  unfolding add_smallint add_integer add_bigint add_float add_double write_smallint write_integer
      write_bigint write_float write_double add_param to_binary type_oid kind_of
  numbers p v = (
    written (push_type p 21) 2 (network_bytes 2 v),
    written (push_type p 23) 4 (network_bytes 4 v),
    written (push_type p 20) 8 (network_bytes 8 v),
    written (push_type p 700) 4 (h.store 4 v),
    written (push_type p 701) 8 (h.store 8 v),
  )

  add_bool-add_param :
      (p : ParamSerializer) (b : Bool) → add_bool p b ≡ add_param p (value (a_boolean b))
  unfolding add_bool write_bool add_param to_binary type_oid kind_of
  add_bool-add_param p b = written (push_type p 16) 1 ((if b then 1 else 0) ∷ [])

  add_call-add_param : (p : ParamSerializer) (c : Call) → add_call p c ≡ add_param p (param_of c)
  unfolding add_call add_param add_optional add_cstring add_byte_array type_oid kind_of to_binary
  add_call-add_param p Call.nullptr = refl
  add_call-add_param p (Call.bool b) = add_bool-add_param p b
  add_call-add_param p (Call.smallint v) = (numbers p v).0
  add_call-add_param p (Call.integer v) = (numbers p v).1
  add_call-add_param p (Call.bigint v) = (numbers p v).2
  add_call-add_param p (Call.float v) = (numbers p v).3
  add_call-add_param p (Call.double v) = (numbers p v).4
  add_call-add_param p (Call.string s) = (text-sized p s).0
  add_call-add_param p (Call.string_view s) = (text-sized p s).1
  add_call-add_param p (Call.byte_array s) = refl
  add_call-add_param p (Call.cstring none) = refl
  add_call-add_param p (Call.cstring (some s)) = (text-sized p s).2
  add_call-add_param p (Call.optional_string none) = refl
  add_call-add_param p (Call.optional_string (some s)) = (text-sized p s).0
  add_call-add_param p (Call.string_vector ss) = refl

  -- Any calls of the functions for single types fill the serializer as `add_param` does with the
  -- parameters that they stand for, a null C string being a text that is missing, and an optional
  -- that is empty a null without a type.
  pub add_calls-add_params :
      (calls : List Call) (p : ParamSerializer)
      → add_calls p calls ≡ add_params p (map param_of calls)
  unfolding add_calls add_params
  add_calls-add_params [] p = refl
  add_calls-add_params (c ∷ calls) p =
      rw (add_call-add_param p c) (add_calls-add_params calls (add_param p (param_of c)))

  add_integral-add_param :
      (p : ParamSerializer) (size : ℕ) (is_signed : Bool) (v : ℕ)
      → traits_add_param p (Argument.integral size is_signed v)
        ≡ add_param p (value (integer_of size is_signed v))
  unfolding traits_add_param
  add_integral-add_param p size is_signed v = elim (Bool-cases (leb size 2)) [
    | inl e ↦ rw e (numbers p (converted 2 size is_signed v)).0
    | inr e ↦ elim (Bool-cases (leb size 4)) [
      | inl f ↦ rw (e, f) (numbers p (converted 4 size is_signed v)).1
      | inr f ↦ rw (e, f) (numbers p (converted 8 size is_signed v)).2
    ]
  ]

  -- The traits add a parameter as `add_param` does: an integer as the narrowest of the three types
  -- that has its size, with its sign, and an optional that is empty as a null without a type, where
  -- `add_param` gives it the type of its value.
  pub traits_add_param-add_param :
      (p : ParamSerializer) (a : Argument) → traits_add_param p a ≡ add_param p (param_for a)
  unfolding traits_add_param add_param add_cstring type_oid
  traits_add_param-add_param p Argument.nullptr_t = refl
  traits_add_param-add_param p (Argument.bool b) = add_bool-add_param p b
  traits_add_param-add_param p (Argument.integral size is_signed v) =
      add_integral-add_param p size is_signed v
  traits_add_param-add_param p (Argument.floating_point size v) = elim (Bool-cases (leb size 4)) [
    | inl e ↦ rw e (numbers p v).3
    | inr e ↦ rw e (numbers p v).4
  ]
  traits_add_param-add_param p (Argument.string s) = (text-sized p s).0
  traits_add_param-add_param p (Argument.string_view s) = (text-sized p s).1
  traits_add_param-add_param p (Argument.cstring none) = refl
  traits_add_param-add_param p (Argument.cstring (some s)) = (text-sized p s).2
  traits_add_param-add_param p (Argument.string_vector ss) = refl
  traits_add_param-add_param p (Argument.char_vector s) = refl
  traits_add_param-add_param p (Argument.unsigned_char_vector s) = refl
  traits_add_param-add_param p (Argument.optional none) = refl
  traits_add_param-add_param p (Argument.optional (some a)) = refl
  traits_add_param-add_param p (Argument.other_vector k es) = refl
