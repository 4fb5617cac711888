-- ===== src/Traits/Printed.antt =====
-- The readers of src/protocol_io_traits.h on numbers as they are printed, and on any text.
use qbm_pgsql.Prelude.{
  ℕ, ◌+◌, ◌^◌, ◌<◌, ◌≤◌, if◌then◌else◌, ◌≡◌, refl, none, some, List, ◌∷◌, ◌++◌, null, ok, throws,
  Fault, Result, All, ◌≢◌, arith,
}
use qbm_pgsql.Wire.{u16}
use qbm_pgsql.Decimal.{to_string, sto}
use qbm_pgsql.Decimal.RoundTrip.{sto-to_string, to_string-nonzero, extend}
use qbm_pgsql.Traits.{before_nul, from_nul}
use qbm_pgsql.Traits.Numbers.{
  parsed, text_reader_smallint, text_reader_integer, text_reader_bigint, text_reader_float,
}
use qbm_pgsql.Message.Reads.{before_nul-append, from_nul-append}

-- A printed number with its terminator, and what its readers have of it.
abbrev pub printed : ℕ → ℕ → List ℕ → List ℕ
printed half v s = to_string half v ++ 0 ∷ s

before_nul-printed : (half v : ℕ) (s : List ℕ) → before_nul (printed half v s) ≡ to_string half v
before_nul-printed half v s = before_nul-append (to_string half v) s (to_string-nonzero half v)

from_nul-printed : (half v : ℕ) (s : List ℕ) → from_nul (printed half v s) ≡ 0 ∷ s
from_nul-printed half v s = from_nul-append (to_string half v) s (to_string-nonzero half v)

-- The body that the readers share.
read-printed :
    (narrow : ℕ → ℕ) (half wide v : ℕ) (s : List ℕ)
    → half ≤ wide
    → wide ≤ 2 ^ 63
    → v < half + half
    → narrow (extend half wide v) ≡ v
    → (if null (from_nul (printed half v s))
        then ok (none, printed half v s)
        else parsed narrow (printed half v s) (sto wide 10 (before_nul (printed half v s))))
      ≡ ok (some v, s)
read-printed narrow half wide v s p q r e =
    rw (before_nul-printed half v s, sto-to_string half wide v p q r)
      (rw (from_nul-printed half v s, e) refl)

-- A smallint, an integer and a bigint, printed in decimal and ended by a zero byte, are read back,
-- negative ones included, and the cursor stands behind the terminator.
pub text_readers-printed :
    (a b c : ℕ) (s : List ℕ)
    → a < 65536
    → b < 4294967296
    → c < 18446744073709551616
    → (text_reader_smallint (printed 32768 a s) ≡ ok (some a, s))
      × (text_reader_integer (printed 2147483648 b s) ≡ ok (some b, s))
      × (text_reader_bigint (printed 9223372036854775808 c s) ≡ ok (some c, s))
unfolding text_reader_smallint text_reader_integer text_reader_bigint
text_readers-printed a b c s p q r = (
  read-printed u16 32768 2147483648 a s (omega arith) (omega arith) p (ground arith),
  read-printed (λ v. v) 2147483648 2147483648 b s (omega arith) (omega arith) q (ground arith),
  read-printed (λ v. v) 9223372036854775808 9223372036854775808 c s (omega arith) (omega arith) r
      (ground arith),
)

-- A text that the library reads as a number, with its terminator; and one that it does not read.
pub text_reader_float-text :
    (scan : List ℕ → Result ℕ) (w s : List ℕ) (v : ℕ)
    → All (λ c. c ≢ 0) w
    → (scan w ≡ ok v → text_reader_float scan (w ++ 0 ∷ s) ≡ ok (some v, s))
      × ((e : Fault)
          → scan w ≡ throws e
          → text_reader_float scan (w ++ 0 ∷ s) ≡ ok (none, w ++ 0 ∷ s))
unfolding text_reader_float
text_reader_float-text scan w s v p = (
  λ q. rw (before_nul-append w s p, from_nul-append w s p, q) (rw (from_nul-append w s p) refl),
  λ e q. rw (before_nul-append w s p, from_nul-append w s p, q) refl,
)
