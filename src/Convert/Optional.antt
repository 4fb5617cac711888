-- ===== src/Convert/Optional.antt =====
-- Optional values of src/type_converter.h.
use qbm_pgsql.Prelude.{
  ℕ, ◌≡◌, refl, Bool, true, false, ◌||◌, none, some, List, [], ◌∷◌, leb, ◌==◌, if◌then◌else◌, null,
  take, bytes_eq, ok, arith, Bool-cases, inl, inr,
}
use qbm_pgsql.Wire.{Host, big_endian}
use qbm_pgsql.Convert.{
  Value, a_boolean, a_smallint, a_integer, a_bigint, a_string, a_bytea, type_of,
  optional_from_binary,
}
use qbm_pgsql.Convert.Wire.{IsValue, binary_form, from_binary-binary_form}

abbrev pub starts_ones : List ℕ → Bool
starts_ones s = bytes_eq (take 4 s) (255 ∷ 255 ∷ 255 ∷ 255 ∷ [])

-- The values that have the form of a null: the integer -1, the bigints from -2 ^ 32 to -1, and the
-- strings that are empty or begin with four bytes of ones.
abbrev pub looks_null : Value → Bool
looks_null (a_boolean b) = false
looks_null (a_smallint v) = false
looks_null (a_integer v) = v == 4294967295
looks_null (a_bigint v) = leb 18446744069414584320 v
looks_null (a_string s) = null s || starts_ones s
looks_null (a_bytea s) = null s || starts_ones s

pub ones-binary_form :
    (v : Value) → IsValue v → null (binary_form v) || starts_ones (binary_form v) ≡ looks_null v
unfolding big_endian
ones-binary_form (a_boolean true) p = refl
ones-binary_form (a_boolean false) p = refl
ones-binary_form (a_smallint v) p = ground arith
ones-binary_form (a_integer v) p = ground arith
ones-binary_form (a_bigint v) p = ground arith
ones-binary_form (a_string s) p = refl
ones-binary_form (a_bytea s) p = refl

module _ ⦃h : Host⦄ where
  -- An optional boolean, integer of 16, 32 or 64 bits, string without null bytes or byte string is
  -- read from the server's binary form of a value as that value, but for the 32-bit integer -1, the
  -- 64-bit integers from -2 ^ 32 to -1, and the strings and byte strings that are empty or begin
  -- with four bytes of ones: each of these is taken for a null.
  pub optional_from_binary-binary_form :
      (v : Value)
      → IsValue v
      → optional_from_binary (type_of v) (binary_form v)
        ≡ ok (if looks_null v then none else some v)
  unfolding optional_from_binary
  optional_from_binary-binary_form v p =
      rw (ones-binary_form v p, from_binary-binary_form v p)
        (elim (Bool-cases (looks_null v)) [ inl e ↦ rw e | inr e ↦ rw e ])
