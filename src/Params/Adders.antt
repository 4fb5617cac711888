-- ===== src/Params/Adders.antt =====
-- The functions `write_` and `add_` of src/param_serializer.h, one for each type.
pub mod Dispatch
pub mod Laws
use qbm_pgsql.Prelude.{
  ℕ, ◌+◌, Bool, Option, none, some, List, [], ◌∷◌, ◌++◌, if◌then◌else◌, length, leb, ltb, null,
  Result, ok, undefined, ◌>>=◌, take, drop,
}
use qbm_pgsql.Wire.{Host, network_bytes, u32}
use qbm_pgsql.Params.{
  ParamSerializer, push_type, push_bytes, param_count, null_bytes, add_null, add_string_vector,
  add_byte_array,
}

-- The calls that a program may make of these functions.
pub data Call : Type 0 where
  nullptr : Call
  bool : Bool → Call
  smallint integer bigint float double : ℕ → Call
  string string_view byte_array : List ℕ → Call
  cstring optional_string : Option (List ℕ) → Call
  string_vector : List (List ℕ) → Call

module _ ⦃h : Host⦄ where
  -- The function that takes a buffer.
  unfoldable pub integer_to : List ℕ → ℕ → List ℕ
  integer_to buffer v = buffer ++ network_bytes 4 v

  -- A write past the end of the buffer is undefined.
  unfoldable pub write_smallint_at : List ℕ → ℕ → ℕ → Result (List ℕ)
  write_smallint_at buffer pos v =
      if leb (pos + 2) (length buffer)
      then ok (take pos buffer ++ (network_bytes 2 v ++ drop (pos + 2) buffer))
      else undefined

  -- The functions that write a length and a value to the buffer of the parameters.
  abbrev pub insert : ParamSerializer → List ℕ → ParamSerializer
  insert = push_bytes

  unfoldable pub write_length : ParamSerializer → ℕ → ParamSerializer
  unfolding integer_to
  write_length p n = record p { params_buffer = integer_to p.params_buffer n }

  unfoldable pub write_bool : ParamSerializer → Bool → ParamSerializer
  unfolding write_length
  write_bool p b = insert (write_length p 1) ((if b then 1 else 0) ∷ [])

  unfoldable pub write_smallint : ParamSerializer → ℕ → ParamSerializer
  unfolding write_length
  write_smallint p v = insert (write_length p 2) (network_bytes 2 v)

  unfoldable pub write_integer : ParamSerializer → ℕ → ParamSerializer
  unfolding write_length
  write_integer p v = insert (write_length p 4) (network_bytes 4 v)

  unfoldable pub write_bigint : ParamSerializer → ℕ → ParamSerializer
  unfolding write_length
  write_bigint p v = insert (write_length p 8) (network_bytes 8 v)

  -- A float is copied as it lies in memory.
  unfoldable pub write_float : ParamSerializer → ℕ → ParamSerializer
  unfolding write_length
  write_float p v = insert (write_length p 4) (h.store 4 v)

  unfoldable pub write_double : ParamSerializer → ℕ → ParamSerializer
  unfolding write_length
  write_double p v = insert (write_length p 8) (h.store 8 v)

  unfoldable pub write_string : ParamSerializer → List ℕ → ParamSerializer
  unfolding write_length
  write_string p s = let q = write_length p (u32 (length s)) in if null s then q else insert q s

  unfoldable pub write_string_view : ParamSerializer → List ℕ → ParamSerializer
  unfolding write_length
  write_string_view p s =
      let q = write_length p (u32 (length s)) in if null s then q else insert q s

  -- A C string is its characters, without the terminator.
  unfoldable pub write_cstring : ParamSerializer → List ℕ → ParamSerializer
  unfolding write_length
  write_cstring p s =
      let q = write_length p (u32 (length s)) in if ltb 0 (length s) then insert q s else q

  unfoldable pub add_bool : ParamSerializer → Bool → ParamSerializer
  unfolding write_bool
  add_bool p b = write_bool (push_type p 16) b

  unfoldable pub add_smallint : ParamSerializer → ℕ → ParamSerializer
  unfolding write_smallint
  add_smallint p v = write_smallint (push_type p 21) v

  unfoldable pub add_integer : ParamSerializer → ℕ → ParamSerializer
  unfolding write_integer
  add_integer p v = write_integer (push_type p 23) v

  unfoldable pub add_bigint : ParamSerializer → ℕ → ParamSerializer
  unfolding write_bigint
  add_bigint p v = write_bigint (push_type p 20) v

  unfoldable pub add_float : ParamSerializer → ℕ → ParamSerializer
  unfolding write_float
  add_float p v = write_float (push_type p 700) v

  unfoldable pub add_double : ParamSerializer → ℕ → ParamSerializer
  unfolding write_double
  add_double p v = write_double (push_type p 701) v

  unfoldable pub add_string : ParamSerializer → List ℕ → ParamSerializer
  unfolding write_string
  add_string p s = write_string (push_type p 25) s

  unfoldable pub add_string_view : ParamSerializer → List ℕ → ParamSerializer
  unfolding write_string_view
  add_string_view p s = write_string_view (push_type p 25) s

  -- The pointer may be null.
  unfoldable pub add_cstring : ParamSerializer → Option (List ℕ) → ParamSerializer
  unfolding write_cstring null_bytes
  add_cstring p none = push_bytes (push_type p 25) null_bytes
  add_cstring p (some s) = write_cstring (push_type p 25) s

  unfoldable pub add_optional {ℓ} :
      {A : Type ℓ}
      → ParamSerializer
      → Option A
      → (ParamSerializer → A → ParamSerializer)
      → ParamSerializer
  unfolding add_null
  add_optional p none adder = add_null p
  add_optional p (some a) adder = adder p a

  -- `resize` fills with zeros.
  unfoldable pub finalize_format_codes : ParamSerializer → Result ParamSerializer
  unfolding write_smallint_at param_count
  finalize_format_codes p =
      let sized =
        if ltb (length p.format_codes_buffer) 2
        then take 2 (p.format_codes_buffer ++ 0 ∷ 0 ∷ [])
        else p.format_codes_buffer in
      do
        buffer ← write_smallint_at sized 0 (param_count p)
        ok (record p { format_codes_buffer = buffer })

  unfoldable pub finalize_params_buffer : ParamSerializer → Result ParamSerializer
  unfolding write_smallint_at param_count
  finalize_params_buffer p = do
    buffer ← write_smallint_at p.params_buffer 0 (param_count p)
    ok (record p { params_buffer = buffer })

  unfoldable pub add_call : ParamSerializer → Call → ParamSerializer
  unfolding add_null add_bool add_smallint add_integer add_bigint add_float add_double add_string
      add_string_view add_byte_array add_cstring add_optional add_string_vector
  add_call p nullptr = add_null p
  add_call p (bool b) = add_bool p b
  add_call p (smallint v) = add_smallint p v
  add_call p (integer v) = add_integer p v
  add_call p (bigint v) = add_bigint p v
  add_call p (float v) = add_float p v
  add_call p (double v) = add_double p v
  add_call p (string s) = add_string p s
  add_call p (string_view s) = add_string_view p s
  add_call p (byte_array s) = add_byte_array p s
  add_call p (cstring s) = add_cstring p s
  add_call p (optional_string o) = add_optional p o add_string
  add_call p (string_vector ss) = add_string_vector p ss

  unfoldable pub add_calls : ParamSerializer → List Call → ParamSerializer
  unfolding add_call
  add_calls p [] = p
  add_calls p (c ∷ cs) = add_calls (add_call p c) cs
