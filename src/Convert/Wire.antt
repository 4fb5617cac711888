-- ===== src/Convert/Wire.antt =====
-- The two formats in which the server sends a value, and that src/type_converter.h reads both.
use qbm_pgsql.Prelude.{
  ℕ, ◌+◌, ◌*◌, ◌/◌, ◌%◌, ◌<◌, ◌≡◌, ◌≢◌, refl, true, false, List, [], ◌∷◌, if◌then◌else◌, ok, All,
  arith,
}
use qbm_pgsql.Wire.{Host, big_endian, IsBytes}
use qbm_pgsql.Decimal.{sto, magnitude, bounded}
use qbm_pgsql.Decimal.RoundTrip.{sto-to_string, to_string-nonzero}
use qbm_pgsql.Unserializer.Laws.{
  read_string_text, read_smallint-big_endian_self, read_integer-big_endian_self,
  read_bigint-big_endian_self,
}
use qbm_pgsql.Convert.{
  Value, a_boolean, a_smallint, a_integer, a_bigint, a_string, a_bytea, type_of, half16, half32,
  half64, to_text, hex_digit, hex_bytes, hex_values, bytea_from_text, from_text, from_binary,
}

-- A value of its type. A text of PostgreSQL has no null byte.
abbrev pub IsValue : Value → Type 0
IsValue (a_boolean b) = Unit
IsValue (a_smallint v) = v < 65536
IsValue (a_integer v) = v < 4294967296
IsValue (a_bigint v) = v < 18446744073709551616
IsValue (a_string s) = All (λ c. c ≢ 0) s
IsValue (a_bytea s) = IsBytes s

-- The server's binary format. Its text format is `to_text`.
abbrev pub binary_form : Value → List ℕ
binary_form (a_boolean b) = (if b then 1 else 0) ∷ []
binary_form (a_smallint v) = big_endian 2 v
binary_form (a_integer v) = big_endian 4 v
binary_form (a_bigint v) = big_endian 8 v
binary_form (a_string s) = s
binary_form (a_bytea s) = s

module _ ⦃h : Host⦄ where
  pub from_binary-binary_form :
      (v : Value) → IsValue v → from_binary (type_of v) (binary_form v) ≡ ok v
  unfolding from_binary
  from_binary-binary_form (a_boolean true) p = refl
  from_binary-binary_form (a_boolean false) p = refl
  from_binary-binary_form (a_smallint v) p = rw (read_smallint-big_endian_self v p)
  from_binary-binary_form (a_integer v) p = rw (read_integer-big_endian_self v p)
  from_binary-binary_form (a_bigint v) p = rw (read_bigint-big_endian_self v p)
  from_binary-binary_form (a_string s) p = rw (read_string_text s p)
  from_binary-binary_form (a_bytea s) p = refl

sto-hex_digit :
    (a b : ℕ) → a < 16 → b < 16 → sto half32 16 (hex_digit a ∷ hex_digit b ∷ []) ≡ ok (a * 16 + b)
unfolding sto magnitude bounded
sto-hex_digit a b p q = ground arith

hex_values-hex_bytes : (bs : List ℕ) → IsBytes bs → hex_values (hex_bytes bs) ≡ ok bs
unfolding hex_values hex_bytes
hex_values-hex_bytes [] p = refl
hex_values-hex_bytes (b ∷ bs) p =
    rw (sto-hex_digit (b / 16) (b % 16) (omega arith) (omega arith), hex_values-hex_bytes bs p.1)
      (ground arith)

hex_bytes-nonzero : (bs : List ℕ) → All (λ c. c ≢ 0) (hex_bytes bs)
unfolding hex_bytes
hex_bytes-nonzero [] = tt
hex_bytes-nonzero (b ∷ bs) = (ground arith, (ground arith, hex_bytes-nonzero bs))

-- What `to_text` makes of a boolean, of an integer of 16, 32 or 64 bits, of a string without null
-- bytes or of a byte string, `from_text` reads back as the same value.
pub from_text-to_text : (v : Value) → IsValue v → from_text (type_of v) (to_text v) ≡ ok v
unfolding from_text to_text bytea_from_text
from_text-to_text (a_boolean true) p = refl
from_text-to_text (a_boolean false) p = refl
from_text-to_text (a_smallint v) p =
    rw (sto-to_string half16 half32 v (omega arith) (omega arith) p) (ground arith)
from_text-to_text (a_integer v) p =
    rw (sto-to_string half32 half32 v (omega arith) (omega arith) p) (ground arith)
from_text-to_text (a_bigint v) p =
    rw (sto-to_string half64 half64 v (omega arith) (omega arith) p) (ground arith)
from_text-to_text (a_string s) p = refl
from_text-to_text (a_bytea s) p = rw (hex_values-hex_bytes s p)

pub to_text-nonzero : (v : Value) → IsValue v → All (λ c. c ≢ 0) (to_text v)
unfolding to_text
to_text-nonzero (a_boolean true) p = (λ e. absurd (omega arith), tt)
to_text-nonzero (a_boolean false) p = (λ e. absurd (omega arith), tt)
to_text-nonzero (a_smallint v) p = to_string-nonzero half16 v
to_text-nonzero (a_integer v) p = to_string-nonzero half32 v
to_text-nonzero (a_bigint v) p = to_string-nonzero half64 v
to_text-nonzero (a_string s) p = p
to_text-nonzero (a_bytea s) p =
    (λ e. absurd (omega arith), (λ e. absurd (omega arith), hex_bytes-nonzero s))
