-- ===== src/Traits/Uuids.antt =====
-- The readers of UUIDs of src/protocol_io_traits.h and src/protocol_io_traits.cpp. The text of a
-- UUID, which is qb's, is a parameter; a UUID is its 16 bytes.
use qbm_pgsql.Prelude.{
  ℕ, ◌≡◌, ◌≢◌, refl, Option, none, some, List, [], ◌∷◌, ◌++◌, false, ltb, le→ltb, length-append,
  if◌then◌else◌, length, take, drop, null, ok, arith, All, take-append, drop-append,
}
use qbm_pgsql.Reader.{Reader}
use qbm_pgsql.Traits.{before_nul, from_nul, binary_reader_uuid, protocol_read}
use qbm_pgsql.Message.Reads.{before_nul-append, from_nul-append}

-- `uuids::to_string` and `qb::uuid::from_string`, which gives nothing for a text that is no UUID: a
-- printed UUID is a text without zero bytes, and is read back.
pub record UuidLibrary : Type 0 where
  pub to_string : List ℕ → List ℕ
  pub from_string : List ℕ → Option (List ℕ)
  pub to_string-nonzero : (u : List ℕ) → length u ≡ 16 → All (λ c. c ≢ 0) (to_string u)
  pub to_string-nonempty : (u : List ℕ) → length u ≡ 16 → null (to_string u) ≡ false
  pub from_string-to_string : (u : List ℕ) → length u ≡ 16 → from_string (to_string u) ≡ some u

-- `protocol_read<Binary, qb::uuid>`
unfoldable pub protocol_read_binary : Reader (List ℕ)
protocol_read_binary s =
    if ltb (length s) 16 then ok (none, s) else ok (some (take 16 s), drop 16 s)

from_nul-none : (t : List ℕ) → All (λ c. c ≢ 0) t → from_nul t ≡ []
from_nul-none [] n = refl
from_nul-none (c ∷ t) n = ground (arith, n.0, from_nul-none t n.1)

long-append : (u s : List ℕ) → length u ≡ 16 → ltb (length (u ++ s)) 16 ≡ false
long-append u s p = le→ltb (length (u ++ s)) 16 (omega (arith, length-append u s, p))

nonempty-append : (u s : List ℕ) → length u ≡ 16 → null (u ++ s) ≡ false
nonempty-append [] s p = absurd (omega (arith, p))
nonempty-append (c ∷ u) s p = refl

binary-uuid : (u s : List ℕ) → length u ≡ 16 → protocol_read_binary (u ++ s) ≡ ok (some u, s)
unfolding protocol_read_binary
binary-uuid u s p = rw (long-append u s p, take-append 16 u s p, drop-append 16 u s p) refl

reader-uuid :
    (u s : List ℕ) → length u ≡ 16 → protocol_read binary_reader_uuid (u ++ s) ≡ ok (some u, s)
unfolding protocol_read binary_reader_uuid
reader-uuid u s p =
    rw (nonempty-append u s p, long-append u s p, take-append 16 u s p, drop-append 16 u s p) refl

module _ (lib : UuidLibrary) where
  open lib use {to_string, from_string}

  -- `text_reader<qb::uuid>`, which asks for a terminator.
  unfoldable pub text_reader_uuid : Reader (List ℕ)
  text_reader_uuid s =
      if null (from_nul s) then ok (none, s) else elim (from_string (before_nul s)) [
        | none ↦ ok (none, s)
        | some u ↦ ok (some u, drop 1 (from_nul s))
      ]

  -- `protocol_read<Text, qb::uuid>`, which takes all that there is.
  unfoldable pub protocol_read_text : Reader (List ℕ)
  protocol_read_text s =
      if null s
      then ok (none, s)
      else elim (from_string s) [ none ↦ ok (none, s) | some u ↦ ok (some u, []) ]

  -- A UUID is read back: in the binary format, with anything behind it, by the specialization and by
  -- the reader of its type; as the text of a field, which has no terminator, by the specialization,
  -- while the text reader takes it only with a terminator, and leaves what follows that.
  pub readers-uuid :
      (u s : List ℕ)
      → length u ≡ 16
      → (protocol_read_binary (u ++ s) ≡ ok (some u, s))
        × (protocol_read binary_reader_uuid (u ++ s) ≡ ok (some u, s))
        × (protocol_read_text (to_string u) ≡ ok (some u, []))
        × (text_reader_uuid (to_string u) ≡ ok (none, to_string u))
        × (text_reader_uuid (to_string u ++ 0 ∷ s) ≡ ok (some u, s))
  unfolding protocol_read_text text_reader_uuid
  readers-uuid u s p =
      let n = lib.to_string-nonzero u p in
      let read = lib.from_string-to_string u p in
      (
        binary-uuid u s p,
        reader-uuid u s p,
        rw (lib.to_string-nonempty u p, read) refl,
        rw (from_nul-none (to_string u) n) refl,
        rw (before_nul-append (to_string u) s n, read)
            (rw (from_nul-append (to_string u) s n) refl),
      )
