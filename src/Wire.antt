-- ===== src/Wire.antt =====
-- Integers in network byte order, as src/protocol.cpp, src/param_serializer.h and
-- src/param_unserializer.cpp write and read them. An integer is its bit pattern, a number below
-- 256 ^ w for a width of w bytes; a byte is a number below 256.
pub mod Laws
use qbm_pgsql.Prelude.{
  ℕ, zero, suc, ◌+◌, ◌-◌, ◌*◌, ◌/◌, ◌%◌, ◌^◌, ◌<◌, ◌≡◌, List, [], ◌∷◌, ◌++◌, length, All,
}

abbrev pub IsByte : ℕ → Type 0
IsByte b = b < 256

abbrev pub IsBytes : List ℕ → Type 0
IsBytes = All IsByte

-- The bytes of a number, the most significant first, and the number that such bytes stand for.
unfoldable pub big_endian : ℕ → ℕ → List ℕ
big_endian zero v = []
big_endian (suc w) v = big_endian w (v / 256) ++ (v % 256) ∷ []

unfoldable pub from_bytes : ℕ → List ℕ → ℕ
from_bytes acc [] = acc
from_bytes acc (b ∷ bs) = from_bytes (acc * 256 + b) bs

-- The host: how an integer of w bytes lies in memory, and the conversions of qb/system/endian.h
-- (with htons, htonl, ntohs and ntohl), which stand outside the repository. The laws are what
-- their documentation promises of them together.
pub record Host : Type 0 where
  pub store : ℕ → ℕ → List ℕ
  pub load : ℕ → List ℕ → ℕ
  pub to_big_endian : ℕ → ℕ → ℕ
  pub from_big_endian : ℕ → ℕ → ℕ
  pub length-store : (w v : ℕ) → length (store w v) ≡ w
  pub store-to_big_endian : (w v : ℕ) → v < 256 ^ w → store w (to_big_endian w v) ≡ big_endian w v
  pub from_big_endian-load :
      (w : ℕ) (bs : List ℕ)
      → length bs ≡ w
      → IsBytes bs
      → from_big_endian w (load w bs) ≡ from_bytes 0 bs

module _ ⦃h : Host⦄ where
  -- `T converted = to_big_endian(val)`, then its bytes in memory order.
  unfoldable pub network_bytes : ℕ → ℕ → List ℕ
  network_bytes w v = h.store w (h.to_big_endian w v)

  -- The bytes copied into an integer, then `from_big_endian`.
  unfoldable pub from_network : ℕ → List ℕ → ℕ
  from_network w bs = h.from_big_endian w (h.load w bs)

-- The 16-bit and 32-bit patterns that a C++ conversion keeps of a number.
abbrev pub u16 : ℕ → ℕ
u16 v = v % 65536

abbrev pub u32 : ℕ → ℕ
u32 v = v % 4294967296
