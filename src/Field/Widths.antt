-- ===== src/Field/Widths.antt =====
-- `FieldReader` of src/field_reader.h on numbers as they are sent, and on shorter buffers.
use qbm_pgsql.Prelude.{ℕ, ◌<◌, ◌≡◌, refl, ap, ◌∙◌, true, none, some, List, length, ok, arith}
use qbm_pgsql.Wire.{Host, big_endian}
use qbm_pgsql.Unserializer.{read_integer, read_bigint, read_float, read_double}
use qbm_pgsql.Unserializer.Laws.{
  read_smallint-big_endian_self, read_integer-big_endian_self, read_bigint-big_endian_self,
}
use qbm_pgsql.Field.Reader.{
  read_or_false, value_of_smallint, value_of_integer, value_of_bigint, value_of_float,
  value_of_double, value_of_optional,
}

module _ ⦃h : Host⦄ where
  read_float-read_integer : (s : List ℕ) → read_float s ≡ read_integer s
  unfolding read_float read_integer
  read_float-read_integer s = refl

  read_double-read_bigint : (s : List ℕ) → read_double s ≡ read_bigint s
  unfolding read_double read_bigint
  read_double-read_bigint s = refl

  -- Numbers of each width are read back from their bytes in network order, a floating point number
  -- as its bit pattern, and the optional readers give the same.
  pub values_of-big_endian :
      (a b c d e : ℕ)
      → a < 65536
      → b < 4294967296
      → c < 18446744073709551616
      → d < 4294967296
      → e < 18446744073709551616
      → (value_of_smallint (big_endian 2 a) ≡ ok (some a))
        × (value_of_integer (big_endian 4 b) ≡ ok (some b))
        × (value_of_bigint (big_endian 8 c) ≡ ok (some c))
        × (value_of_float (big_endian 4 d) ≡ ok (some d))
        × (value_of_double (big_endian 8 e) ≡ ok (some e))
        × (value_of_optional value_of_double (big_endian 8 e) ≡ ok (some e, true))
  unfolding value_of_smallint value_of_integer value_of_bigint value_of_float value_of_double
      value_of_optional
  values_of-big_endian a b c d e pa pb pc pd pe =
      let double = read_double-read_bigint (big_endian 8 e) ∙ read_bigint-big_endian_self e pe in
      (
        ap read_or_false (read_smallint-big_endian_self a pa),
        ap read_or_false (read_integer-big_endian_self b pb),
        ap read_or_false (read_bigint-big_endian_self c pc),
        ap read_or_false
            (read_float-read_integer (big_endian 4 d) ∙ read_integer-big_endian_self d pd),
        ap read_or_false double,
        rw double refl,
      )

  -- A buffer of fewer bytes than the number has is refused without an exception.
  pub values_of-short :
      (s : List ℕ)
      → (length s < 2 → value_of_smallint s ≡ ok none)
        × (length s < 4 → (value_of_integer s ≡ ok none) × (value_of_float s ≡ ok none))
        × (length s < 8 → (value_of_bigint s ≡ ok none) × (value_of_double s ≡ ok none))
  unfolding value_of_smallint value_of_integer value_of_bigint value_of_float value_of_double
  values_of-short s =
      (λ p. ground arith, λ p. (ground arith, ground arith), λ p. (ground arith, ground arith))
