-- ===== src/Convert.antt =====
-- `TypeConverter` of src/type_converter.h: a value as the text that PostgreSQL prints of it, and
-- back from a field in the binary or the text format.
pub mod Wire
pub mod Optional
pub mod Floats
use qbm_pgsql.Prelude.{
  ℕ, ◌+◌, ◌/◌, ◌%◌, Bool, true, false, not, ◌||◌, Option, none, some, List, [], ◌∷◌, ◌++◌, ◌==◌,
  ltb, leb, if◌then◌else◌, length, get_or, take, drop, null, bytes_eq, codes, Result, ok, throws,
  undefined, runtime_error, ◌>>=◌,
}
use qbm_pgsql.Wire.{Host}
use qbm_pgsql.Decimal.{to_string, sto}
use qbm_pgsql.Unserializer.{read_smallint, read_integer, read_bigint, read_string}

-- The types whose two formats are modelled, and their values; an integer is its bit pattern.
pub data ValueType : Type 0 where
  boolean smallint integer bigint string bytea : ValueType

pub data Value : Type 0 where
  a_boolean : Bool → Value
  a_smallint a_integer a_bigint : ℕ → Value
  a_string a_bytea : List ℕ → Value

abbrev pub type_of : Value → ValueType
type_of (a_boolean b) = boolean
type_of (a_smallint v) = smallint
type_of (a_integer v) = integer
type_of (a_bigint v) = bigint
type_of (a_string s) = string
type_of (a_bytea s) = bytea

-- Half the range of an integer type.
abbrev pub half16 : ℕ
half16 = 32768

abbrev pub half32 : ℕ
half32 = 2147483648

abbrev pub half64 : ℕ
half64 = 9223372036854775808

-- `%02x`
abbrev pub hex_digit : ℕ → ℕ
hex_digit n = if ltb n 10 then b'0' + n else b'W' + n

unfoldable pub hex_bytes : List ℕ → List ℕ
hex_bytes [] = []
hex_bytes (b ∷ bs) = hex_digit (b / 16) ∷ hex_digit (b % 16) ∷ hex_bytes bs

unfoldable pub to_text : Value → List ℕ
unfolding to_string hex_bytes
to_text (a_boolean b) = if b then codes "t" else codes "f"
to_text (a_smallint v) = to_string half16 v
to_text (a_integer v) = to_string half32 v
to_text (a_bigint v) = to_string half64 v
to_text (a_string s) = s
to_text (a_bytea s) = codes "\\x" ++ hex_bytes s

abbrev pub is_true : List ℕ → Bool
is_true text =
    bytes_eq text (codes "t")
    || (bytes_eq text (codes "true")
        || (bytes_eq text (codes "1")
            || (bytes_eq text (codes "yes")
                || (bytes_eq text (codes "y") || bytes_eq text (codes "on")))))

-- The loop over pairs of digits, each by `std::stoi` in base 16 and cut to a byte.
unfoldable pub hex_values : List ℕ → Result (List ℕ)
unfolding sto
hex_values [] = ok []
hex_values (a ∷ []) = ok []
hex_values (a ∷ b ∷ rest) = do
  value ← sto half32 16 (a ∷ b ∷ [])
  bytes ← hex_values rest
  ok ((value % 256) ∷ bytes)

unfoldable pub bytea_from_text : List ℕ → Result (List ℕ)
unfolding hex_values
bytea_from_text text =
    if bytes_eq (take 2 text) (codes "\\x") then hex_values (drop 2 text) else ok text

-- A smallint is cut from what `std::stoi` reads.
unfoldable pub from_text : ValueType → List ℕ → Result Value
unfolding sto bytea_from_text
from_text boolean text = ok (a_boolean (is_true text))
from_text smallint text = do v ← sto half32 10 text; ok (a_smallint (v % 65536))
from_text integer text = do v ← sto half32 10 text; ok (a_integer v)
from_text bigint text = do v ← sto half64 10 text; ok (a_bigint v)
from_text string text = ok (a_string text)
from_text bytea text = do bytes ← bytea_from_text text; ok (a_bytea bytes)

module _ ⦃h : Host⦄ where
  unfoldable pub from_binary : ValueType → List ℕ → Result Value
  from_binary boolean buffer =
      if null buffer
      then throws runtime_error
      else if leb 5 (length buffer)
      then ok (a_boolean (not (get_or buffer 4 0 == 0)))
      else ok (a_boolean (not (get_or buffer 0 0 == 0)))
  from_binary smallint buffer = do v ← read_smallint buffer; ok (a_smallint v)
  from_binary integer buffer = do v ← read_integer buffer; ok (a_integer v)
  from_binary bigint buffer = do v ← read_bigint buffer; ok (a_bigint v)
  from_binary string buffer = do s ← read_string buffer; ok (a_string s)
  from_binary bytea buffer = ok (a_bytea buffer)

  -- `TypeConverter<std::optional<T>>`: the test for a null looks at the first four bytes, which are
  -- all ones whatever the order of the host's bytes.
  unfoldable pub optional_from_binary : ValueType → List ℕ → Result (Option Value)
  unfolding from_binary
  optional_from_binary t buffer =
      if null buffer || bytes_eq (take 4 buffer) (255 ∷ 255 ∷ 255 ∷ 255 ∷ [])
      then ok none
      else (do v ← from_binary t buffer; ok (some v))

unfoldable pub optional_from_text : ValueType → List ℕ → Result (Option Value)
unfolding from_text
optional_from_text t text = if null text then ok none else (do v ← from_text t text; ok (some v))
