-- ===== src/Unserializer.antt =====
-- src/param_unserializer.cpp: the values in a buffer that came over the wire.
pub mod Laws
pub mod Hex
use qbm_pgsql.Prelude.{
  ℕ, zero, suc, ◌+◌, ◌-◌, ◌*◌, ◌%◌, Bool, true, false, not, ◌&&◌, ◌||◌, List, [], ◌∷◌, ◌++◌, ltb,
  leb, ◌==◌, if◌then◌else◌, length, get_or, take, drop, null, bytes_eq, codes, Result, ok, throws,
  undefined, runtime_error, ◌>>=◌,
}
use qbm_pgsql.Wire.{Host, from_network}

-- A value of type `integer` is its 32-bit pattern; it is negative from 2 ^ 31 on.
abbrev pub is_negative32 : ℕ → Bool
is_negative32 v = leb 2147483648 v

unfoldable pub read_text_string : List ℕ → Result (List ℕ)
read_text_string buffer = ok buffer

-- `try { return read_binary_string(buffer); } catch (...) { return read_text_string(buffer); }`
abbrev or_text : Result (List ℕ) → List ℕ → Result (List ℕ)
or_text (ok s) buffer = ok s
or_text (throws e) buffer = ok buffer
or_text undefined buffer = undefined

abbrev pub looks_binary : List ℕ → Bool
looks_binary buffer =
    leb 4 (length buffer)
    && (leb (length buffer) 1048576
        && (get_or buffer 0 0 == 0 || (get_or buffer 1 0 == 0 || get_or buffer 2 0 == 0)))

abbrev pub starts_textual : ℕ → Bool
starts_textual c =
    c == b't'
    || (c == b'T'
        || (c == b'f' || (c == b'F' || (c == b'1' || (c == b'0' || (c == b'y' || c == b'n'))))))

abbrev pub is_true_text : List ℕ → Bool
is_true_text t =
    bytes_eq t (codes "true")
    || (bytes_eq t (codes "t")
        || (bytes_eq t (codes "1")
            || (bytes_eq t (codes "y") || (bytes_eq t (codes "yes") || bytes_eq t (codes "on")))))

-- What follows the test for a length prefix.
read_bool_unprefixed : List ℕ → Result Bool
read_bool_unprefixed buffer =
    if starts_textual (get_or buffer 0 0)
    then (do text ← read_text_string buffer; ok (is_true_text text))
    else ok (not (get_or buffer 0 0 == 0))

pub hex_nibble : ℕ → Result ℕ
hex_nibble c =
    if leb b'0' c && leb c b'9'
    then ok (c - b'0')
    else if leb b'a' c && leb c b'f'
    then ok (c - b'a' + 10)
    else if leb b'A' c && leb c b'F'
    then ok (c - b'A' + 10)
    else throws runtime_error

-- The loop over pairs of digits; a last digit with no partner is dropped.
pub hex_pairs : List ℕ → Result (List ℕ)
hex_pairs [] = ok []
hex_pairs (a ∷ []) = ok []
hex_pairs (a ∷ b ∷ rest) = do
  hi ← hex_nibble a
  lo ← hex_nibble b
  bytes ← hex_pairs rest
  ok ((hi * 16 + lo) ∷ bytes)

abbrev after_prefix : List ℕ → List ℕ
after_prefix text = if bytes_eq (take 2 text) (codes "\\x") then drop 2 text else text

module _ ⦃h : Host⦄ where
  unfoldable pub read_smallint : List ℕ → Result ℕ
  read_smallint buffer =
      if ltb (length buffer) 2 then throws runtime_error else ok (from_network 2 (take 2 buffer))

  unfoldable pub read_integer : List ℕ → Result ℕ
  read_integer buffer =
      if ltb (length buffer) 4 then throws runtime_error else ok (from_network 4 (take 4 buffer))

  unfoldable pub read_bigint : List ℕ → Result ℕ
  read_bigint buffer =
      if ltb (length buffer) 8 then throws runtime_error else ok (from_network 8 (take 8 buffer))

  -- A floating point number is its bit pattern.
  unfoldable pub read_float : List ℕ → Result ℕ
  read_float buffer =
      if ltb (length buffer) 4 then throws runtime_error else ok (from_network 4 (take 4 buffer))

  unfoldable pub read_double : List ℕ → Result ℕ
  read_double buffer =
      if ltb (length buffer) 8 then throws runtime_error else ok (from_network 8 (take 8 buffer))

  unfoldable pub read_binary_string : List ℕ → Result (List ℕ)
  read_binary_string buffer = if ltb (length buffer) 4 then throws runtime_error else do
    len ← read_integer (take 4 buffer)
    if is_negative32 len
        then ok []
        else if ltb (length buffer) (len + 4)
        then throws runtime_error
        else ok (take len (drop 4 buffer))

  unfoldable pub read_string : List ℕ → Result (List ℕ)
  read_string buffer =
      if null buffer
      then ok []
      else if looks_binary buffer
      then or_text (read_binary_string buffer) buffer
      else read_text_string buffer

  unfoldable pub read_bool : List ℕ → Result Bool
  unfolding read_bool_unprefixed
  read_bool buffer =
      if null buffer
      then throws runtime_error
      else if leb 5 (length buffer)
      then (do
        len ← read_integer (take 4 buffer)
        if len == 1 then ok (not (get_or buffer 4 0 == 0)) else read_bool_unprefixed buffer)
      else read_bool_unprefixed buffer

  unfoldable pub read_bytea : List ℕ → Result (List ℕ)
  unfolding hex_pairs
  read_bytea buffer =
      if leb 4 (length buffer) && (get_or buffer 0 0 == 0 || get_or buffer 1 0 == 0)
      then (do
        len ← read_integer (take 4 buffer)
        if is_negative32 len
            then ok []
            else if ltb (length buffer) (len + 4)
            then throws runtime_error
            else ok (take len (drop 4 buffer)))
      else (do text ← read_text_string buffer; hex_pairs (after_prefix text))
