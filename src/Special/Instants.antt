-- ===== src/Special/Instants.antt =====
-- Timestamps of src/type_converter.h.
use qbm_pgsql.Prelude.{
  ℕ, suc, ◌+◌, ◌-◌, ◌*◌, ◌%◌, ◌<◌, ◌≡◌, refl, List, ◌++◌, length, ok, undefined, arith,
  length-append, drop-append,
}
use qbm_pgsql.Prelude.Int.{ℤ, pos, negsuc, pos_part, neg_part, signed}
use qbm_pgsql.Wire.{Host, big_endian}
use qbm_pgsql.Wire.Laws.{length-big_endian, from_network-big_endian}
use qbm_pgsql.Unserializer.Laws.{take-big_endian}
use qbm_pgsql.Special.{Timestamp, timestamp_of, timestamp_from_binary}

-- `t` is `v` microseconds after 2000, in seconds and less than a second of the Unix epoch.
pub record IsInstant (v : ℤ) (t : Timestamp) : Type 0 where
  pub micros : ℕ
  pub whole : t.microseconds ≡ pos micros
  pub within : micros < 1000000
  pub exact :
      pos_part t.seconds * 1000000 + micros + neg_part v
      ≡ neg_part t.seconds * 1000000 + pos_part v + 946684800000000

timestamp_of-IsInstant : (v : ℤ) → IsInstant v (timestamp_of v)
unfolding timestamp_of
timestamp_of-IsInstant (pos a) = record {
  micros = a % 1000000;
  whole = ground arith;
  within = omega arith;
  exact = ground arith;
}
timestamp_of-IsInstant (negsuc a) = record {
  micros = (1000000 - suc a % 1000000) % 1000000;
  whole = ground arith;
  within = omega arith;
  exact = ground arith;
}

module _ ⦃h : Host⦄ where
  -- A timestamp is read exactly, bare or behind any four bytes: the seconds of the Unix epoch and
  -- fewer than a million microseconds are together the microseconds after 2000 that the 64-bit
  -- pattern stands for, before 2000 too. A buffer of nine to eleven bytes is read past its end.
  pub timestamp_from_binary-exact :
      (v : ℕ) (size s : List ℕ)
      → v < 18446744073709551616
      → length size ≡ 4
      → 8 < length s
      → length s < 12
      → (t : Timestamp) × (timestamp_from_binary (big_endian 8 v) ≡ ok t)
        × (timestamp_from_binary (size ++ big_endian 8 v) ≡ ok t)
        × IsInstant (signed 9223372036854775808 v) t
        × (timestamp_from_binary s ≡ undefined)
  unfolding timestamp_from_binary
  timestamp_from_binary-exact v size s p q a b =
      let n = length-big_endian 8 v in
      (
        timestamp_of (signed 9223372036854775808 v),
        rw (n, take-big_endian 8 v, from_network-big_endian 8 v p) refl,
        rw
            (
              length-append size (big_endian 8 v),
              q,
              n,
              drop-append 4 size (big_endian 8 v) q,
              take-big_endian 8 v,
              from_network-big_endian 8 v p,
            )
            refl,
        timestamp_of-IsInstant (signed 9223372036854775808 v),
        ground arith,
      )
