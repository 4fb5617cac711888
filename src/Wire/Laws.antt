-- ===== src/Wire/Laws.antt =====
-- The laws of network byte order.
use native.Mathlib.Nat.{pow-suc}
use qbm_pgsql.Prelude.{
  ℕ, zero, suc, ◌+◌, ◌*◌, ◌/◌, ◌%◌, ◌^◌, ◌<◌, ◌≡◌, refl, ◌∙◌, List, [], ◌∷◌, ◌++◌, arith, length,
  length-append, All-append,
}
use qbm_pgsql.Wire.{IsByte, IsBytes, big_endian, from_bytes, Host, network_bytes, from_network}

pub length-big_endian : (w v : ℕ) → length (big_endian w v) ≡ w
unfolding big_endian
length-big_endian zero v = refl
length-big_endian (suc w) v =
    omega (
      arith,
      length-append (big_endian w (v / 256)) ((v % 256) ∷ []),
      length-big_endian w (v / 256),
    )

pub big_endian-IsBytes : (w v : ℕ) → IsBytes (big_endian w v)
unfolding big_endian
big_endian-IsBytes zero v = tt
big_endian-IsBytes (suc w) v =
    All-append IsByte (big_endian w (v / 256)) ((v % 256) ∷ []) (big_endian-IsBytes w (v / 256))
      (omega arith, tt)

from_bytes-append :
    (acc : ℕ) (xs : List ℕ) (b : ℕ) → from_bytes acc (xs ++ b ∷ []) ≡ from_bytes acc xs * 256 + b
unfolding from_bytes
from_bytes-append acc [] b = refl
from_bytes-append acc (x ∷ xs) b = from_bytes-append (acc * 256 + x) xs b

pub from_bytes-big_endian : (w v : ℕ) → v < 256 ^ w → from_bytes 0 (big_endian w v) ≡ v
unfolding big_endian from_bytes
from_bytes-big_endian zero v h = omega arith
from_bytes-big_endian (suc w) v h =
    from_bytes-append 0 (big_endian w (v / 256)) (v % 256)
    ∙ omega (arith, from_bytes-big_endian w (v / 256) (omega (arith, pow-suc 256 w)))

module _ ⦃h : Host⦄ where
  pub network_bytes-eq : (w v : ℕ) → v < 256 ^ w → network_bytes w v ≡ big_endian w v
  unfolding network_bytes
  network_bytes-eq w v p = h.store-to_big_endian w v p

  pub from_network-big_endian : (w v : ℕ) → v < 256 ^ w → from_network w (big_endian w v) ≡ v
  unfolding from_network
  from_network-big_endian w v p =
      h.from_big_endian-load w (big_endian w v) (length-big_endian w v) (big_endian-IsBytes w v)
      ∙ from_bytes-big_endian w v p

-- A host that stores the most significant byte first, on which the conversions do nothing.
instance abbrev pub big_endian_host : Host
big_endian_host = record {
  store = big_endian;
  load = λ w bs. from_bytes 0 bs;
  to_big_endian = λ w v. v;
  from_big_endian = λ w v. v;
  length-store = length-big_endian;
  store-to_big_endian = λ w v p. refl;
  from_big_endian-load = λ w bs p q. refl;
}
