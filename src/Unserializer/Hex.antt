-- ===== src/Unserializer/Hex.antt =====
-- The hexadecimal form of a byte string.
use qbm_pgsql.Prelude.{
  ℕ, ◌+◌, ◌-◌, ◌/◌, ◌%◌, ◌<◌, ◌≡◌, refl, List, [], ◌∷◌, ◌++◌, ltb, if◌then◌else◌, codes, ok, arith,
}
use qbm_pgsql.Wire.{Host, IsBytes}
use qbm_pgsql.Unserializer.{hex_nibble, hex_pairs, read_bytea, read_text_string}

-- The server's output of a byte string: `\x`, then two lower case digits for each byte.
abbrev pub hex_digit : ℕ → ℕ
hex_digit n = if ltb n 10 then b'0' + n else b'a' + (n - 10)

abbrev pub to_hex : List ℕ → List ℕ
to_hex [] = []
to_hex (b ∷ bs) = hex_digit (b / 16) ∷ hex_digit (b % 16) ∷ to_hex bs

hex_nibble-hex_digit : (n : ℕ) → n < 16 → hex_nibble (hex_digit n) ≡ ok n
unfolding hex_nibble
hex_nibble-hex_digit n p = ground arith

hex_pairs-to_hex : (bs : List ℕ) → IsBytes bs → hex_pairs (to_hex bs) ≡ ok bs
unfolding hex_pairs
hex_pairs-to_hex [] p = refl
hex_pairs-to_hex (b ∷ bs) p =
    ground
      (arith, hex_nibble-hex_digit (b / 16), hex_nibble-hex_digit (b % 16), hex_pairs-to_hex bs p.1)

module _ ⦃h : Host⦄ where
  -- `read_bytea` reads back the hexadecimal form of every byte string.
  pub read_bytea-to_hex : (bs : List ℕ) → IsBytes bs → read_bytea (codes "\\x" ++ to_hex bs) ≡ ok bs
  unfolding read_bytea read_text_string
  read_bytea-to_hex bs p = ground (arith, hex_pairs-to_hex bs p)
