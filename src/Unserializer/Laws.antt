-- ===== src/Unserializer/Laws.antt =====
-- Strings, booleans and integers read from a buffer.
use qbm_pgsql.Prelude.{
  ℕ, ◌≤◌, ◌<◌, ◌≡◌, ◌≢◌, refl, List, [], ◌∷◌, ◌++◌, length, take, ok, All, arith, take_all, le→ltb,
  length-append, take-append, drop-append, append-nil,
}
use qbm_pgsql.Wire.{Host, big_endian}
use qbm_pgsql.Wire.Laws.{length-big_endian, from_network-big_endian}
use qbm_pgsql.Unserializer.{
  read_string, read_binary_string, read_text_string, read_smallint, read_integer, read_bigint,
}

module _ ⦃h : Host⦄ where
  -- A text with no zero byte, as the server sends it, is read as it is.
  pub read_string_text : (s : List ℕ) → All (λ b. b ≢ 0) s → read_string s ≡ ok s
  unfolding read_string read_text_string
  read_string_text [] n = refl
  read_string_text (a ∷ []) n = ground arith
  read_string_text (a ∷ b ∷ []) n = ground arith
  read_string_text (a ∷ b ∷ c ∷ s) n = ground arith

  -- The integer at the head of a buffer.
  pub read_integer-big_endian :
      (v : ℕ) (s : List ℕ) → v < 4294967296 → read_integer (big_endian 4 v ++ s) ≡ ok v
  unfolding read_integer
  read_integer-big_endian v s p = rw (
    le→ltb (length (big_endian 4 v ++ s)) 4
        (omega (arith, length-append (big_endian 4 v) s, length-big_endian 4 v)),
    take-append 4 (big_endian 4 v) s (length-big_endian 4 v),
    from_network-big_endian 4 v (omega arith),
  )

  pub read_integer-big_endian_self : (v : ℕ) → v < 4294967296 → read_integer (big_endian 4 v) ≡ ok v
  read_integer-big_endian_self v p = rw append-nil at (read_integer-big_endian v [] p)

  pub take-big_endian : (w v : ℕ) → take w (big_endian w v) ≡ big_endian w v
  take-big_endian w v = rw append-nil at (take-append w (big_endian w v) [] (length-big_endian w v))

  pub read_smallint-big_endian_self : (v : ℕ) → v < 65536 → read_smallint (big_endian 2 v) ≡ ok v
  unfolding read_smallint
  read_smallint-big_endian_self v p =
      rw (length-big_endian 2 v, take-big_endian 2 v, from_network-big_endian 2 v p)

  pub read_bigint-big_endian_self :
      (v : ℕ) → v < 18446744073709551616 → read_bigint (big_endian 8 v) ≡ ok v
  unfolding read_bigint
  read_bigint-big_endian_self v p =
      rw (length-big_endian 8 v, take-big_endian 8 v, from_network-big_endian 8 v p)

  read_binary_string-prefix :
      (s : List ℕ)
      → length s < 2147483648
      → read_binary_string (big_endian 4 (length s) ++ s) ≡ ok s
  unfolding read_binary_string
  read_binary_string-prefix s p =
      let n = length s in
      let h4 = length-big_endian 4 n in
      ground (
        arith,
        length-append (big_endian 4 n) s,
        take-append 4 (big_endian 4 n) s h4,
        drop-append 4 (big_endian 4 n) s h4,
        read_integer-big_endian_self n,
        take_all s,
      )

  -- A text under its four-byte length, as a parameter is written, is read as the text alone.
  pub read_string-prefix :
      (s : List ℕ) → length s ≤ 1048572 → read_string (big_endian 4 (length s) ++ s) ≡ ok s
  unfolding read_string big_endian
  read_string-prefix s p = ground (arith, read_binary_string-prefix s)
