-- ===== src/Traits/Numbers.antt =====
-- The readers of numbers of src/protocol_io_traits.h: floating point numbers in the binary format,
-- as their bit patterns, and numbers as texts.
use qbm_pgsql.Prelude.{
  ℕ, Option, none, some, List, ltb, if◌then◌else◌, length, take, drop, null, Result, ok, throws,
  undefined, ◌>>=◌,
}
use qbm_pgsql.Wire.{Host, u16}
use qbm_pgsql.Reader.{Reader}
use qbm_pgsql.Unserializer.{read_float, read_double}
use qbm_pgsql.Decimal.{sto}
use qbm_pgsql.Traits.{before_nul, from_nul}

module _ ⦃h : Host⦄ where
  unfoldable pub binary_reader_float : Reader ℕ
  unfolding read_float
  binary_reader_float s =
      if ltb (length s) 4
      then ok (none, s)
      else (do value ← read_float (take 4 s); ok (some value, drop 4 s))

  unfoldable pub binary_reader_double : Reader ℕ
  unfolding read_double
  binary_reader_double s =
      if ltb (length s) 8
      then ok (none, s)
      else (do value ← read_double (take 8 s); ok (some value, drop 8 s))

-- The `catch` block gives back the iterator that was given.
abbrev pub parsed : (ℕ → ℕ) → List ℕ → Result ℕ → Result (Option ℕ × List ℕ)
parsed narrow s (ok v) = ok (some (narrow v), drop 1 (from_nul s))
parsed narrow s (throws e) = ok (none, s)
parsed narrow s undefined = undefined

-- A text has to have its terminator. A smallint is narrowed from an integer.
unfoldable pub text_reader_smallint : Reader ℕ
unfolding sto
text_reader_smallint s =
    if null (from_nul s) then ok (none, s) else parsed u16 s (sto 2147483648 10 (before_nul s))

unfoldable pub text_reader_integer : Reader ℕ
unfolding sto
text_reader_integer s =
    if null (from_nul s) then ok (none, s) else parsed (λ v. v) s (sto 2147483648 10 (before_nul s))

unfoldable pub text_reader_bigint : Reader ℕ
unfolding sto
text_reader_bigint s =
    if null (from_nul s)
    then ok (none, s)
    else parsed (λ v. v) s (sto 9223372036854775808 10 (before_nul s))

-- `std::stof` and `std::stod` of the C++ library are a parameter.
module _ (scan : List ℕ → Result ℕ) where
  unfoldable pub text_reader_float : Reader ℕ
  text_reader_float s =
      if null (from_nul s) then ok (none, s) else parsed (λ v. v) s (scan (before_nul s))

  unfoldable pub text_reader_double : Reader ℕ
  text_reader_double s =
      if null (from_nul s) then ok (none, s) else parsed (λ v. v) s (scan (before_nul s))
