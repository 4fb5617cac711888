-- ===== src/Traits.antt =====
-- src/protocol_io_traits.h: the readers of single values between two iterators. A reader takes the
-- bytes from `begin` to `end` and returns the value that it assigned, if any, with the bytes from
-- the iterator that it returns: where that is `begin`, nothing was read.
pub mod Numbers
pub mod Uuids
pub mod Printed
use qbm_pgsql.Prelude.{
  ℕ, ◌==◌, Bool, ◌||◌, not, none, some, List, [], ◌∷◌, ltb, if◌then◌else◌, length, take, drop, null,
  get_or, bytes_eq, codes, ok, ◌>>=◌,
}
use qbm_pgsql.Wire.{Host}
use qbm_pgsql.Reader.{Reader}
use qbm_pgsql.Unserializer.{read_smallint, read_integer, read_bigint, read_string}

-- `std::find(begin, end, '\0')`: the bytes before the terminator, and those from it on.
abbrev pub before_nul : List ℕ → List ℕ
before_nul [] = []
before_nul (c ∷ s) = if c == 0 then [] else c ∷ before_nul s

abbrev pub from_nul : List ℕ → List ℕ
from_nul [] = []
from_nul (c ∷ s) = if c == 0 then c ∷ s else from_nul s

module _ ⦃h : Host⦄ where
  -- The readers of fixed width, which leave a shorter input alone.
  unfoldable pub binary_reader_smallint : Reader ℕ
  binary_reader_smallint s =
      if ltb (length s) 2
      then ok (none, s)
      else (do value ← read_smallint (take 2 s); ok (some value, drop 2 s))

  unfoldable pub binary_reader_integer : Reader ℕ
  binary_reader_integer s =
      if ltb (length s) 4
      then ok (none, s)
      else (do value ← read_integer (take 4 s); ok (some value, drop 4 s))

  unfoldable pub binary_reader_bigint : Reader ℕ
  binary_reader_bigint s =
      if ltb (length s) 8
      then ok (none, s)
      else (do value ← read_bigint (take 8 s); ok (some value, drop 8 s))

  unfoldable pub binary_reader_string : Reader (List ℕ)
  binary_reader_string s =
      if null s then ok (some [], s) else (do value ← read_string s; ok (some value, []))

unfoldable pub binary_reader_bool : Reader Bool
binary_reader_bool s =
    if null s then ok (none, s) else ok (some (not (get_or s 0 0 == 0)), drop 1 s)

-- 16 bytes, taken as they are.
unfoldable pub binary_reader_uuid : Reader (List ℕ)
binary_reader_uuid s = if ltb (length s) 16 then ok (none, s) else ok (some (take 16 s), drop 16 s)

unfoldable pub text_reader_bool : Reader Bool
text_reader_bool s =
    if null (from_nul s)
    then ok (none, s)
    else ok (some (is_true (before_nul s)), drop 1 (from_nul s))
  where
    is_true : List ℕ → Bool
    is_true t =
        bytes_eq t (codes "true")
        || (bytes_eq t (codes "t")
            || (bytes_eq t (codes "1") || (bytes_eq t (codes "yes") || bytes_eq t (codes "y"))))

-- An end with no terminator ends the text too.
unfoldable pub text_reader_string : Reader (List ℕ)
text_reader_string s = ok (some (before_nul s), drop 1 (from_nul s))

-- `protocol_read` with the reader of the format and the type.
unfoldable pub protocol_read : {A : Type 0} → Reader A → Reader A
protocol_read reader s = if null s then ok (none, s) else reader s
