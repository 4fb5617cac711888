-- ===== src/PgTypes.antt =====
-- src/pg_types.cpp: the names of the types of PostgreSQL, printed to a stream and read from one. A
-- value of the type `oid` is any number of 32 bits. The streams are those of the C++ library, over
-- devices that take and keep everything.
pub mod Oids
mod Printed
mod Parsed
pub mod Tables
pub mod RoundTrip
pub mod Reading
use qbm_pgsql.Prelude.{
  ℕ, Bool, true, false, not, ◌||◌, Option, none, some, List, [], ◌∷◌, ◌++◌, ◌==◌, if◌then◌else◌,
  null, bytes_eq, codes,
}
use qbm_pgsql.Decimal.{to_string, is_space, skip_space}
use qbm_pgsql.PgTypes.Oids.{Oid, underlying}
use qbm_pgsql.PgTypes.Printed.{oid_to_string}
use qbm_pgsql.PgTypes.Parsed.{string_to_oid}

-- Of two entries with one key a `std::map` keeps the first.
unfoldable pub find_name : ℕ → List (Oid × List ℕ) → Option (List ℕ)
unfolding underlying
find_name val [] = none
find_name val ((key, name) ∷ table) =
    if underlying key == val then some name else find_name val table

unfoldable pub find_oid : List ℕ → List (List ℕ × Oid) → Option Oid
find_oid name [] = none
find_oid name ((key, val) ∷ table) = if bytes_eq key name then some val else find_oid name table

pub record Ostream : Type 0 where
  pub written : List ℕ
  pub good : Bool

-- A type without a name is printed as its number.
abbrev pub name_or_number : ℕ → Option (List ℕ) → List ℕ
name_or_number val none = codes "oid_" ++ to_string 2147483648 val
name_or_number val (some name) = name

unfoldable pub printed : ℕ → List ℕ
unfolding find_name oid_to_string
printed val = name_or_number val (find_name val oid_to_string)

-- `operator<<`
unfoldable pub print : Ostream → ℕ → Ostream
unfolding printed
print out val = if out.good then record out { written = out.written ++ printed val } else out

-- What is left to read, and the bits of the end of the file and of failure.
pub record Istream : Type 0 where
  pub text : List ℕ
  pub at_end : Bool
  pub failed : Bool

abbrev pub fail : Istream → Istream
fail s = record s { failed = true }

-- `std::istream::sentry`, which skips the white space in front: whether the stream may be read.
abbrev pub skipped : List ℕ → Bool × Istream
skipped [] = (false, record { text = []; at_end = true; failed = true })
skipped (c ∷ s) = (true, record { text = c ∷ s; at_end = false; failed = false })

unfoldable pub sentry : Istream → Bool × Istream
sentry s = if s.at_end || s.failed then (false, fail s) else skipped (skip_space s.text)

-- The characters up to the next white space, and what follows them.
unfoldable pub word : List ℕ → List ℕ × List ℕ
word [] = ([], [])
word (c ∷ s) = let (w, rest) = word s in if is_space c then ([], c ∷ s) else (c ∷ w, rest)

-- `in >> name`: a name with no characters is a failure.
unfoldable pub read_name : Istream → List ℕ × Istream
unfolding sentry word
read_name s =
    let (ready, t) = sentry s in
    if ready
    then (let (w, rest) = word t.text in
        (w, record { text = rest; at_end = null rest; failed = null w }))
    else ([], t)

-- The value read, which a name that is unknown leaves as it was.
abbrev pub value_read : Istream → ℕ → Option Oid → Istream × ℕ
value_read s val none = (fail s, val)
value_read s val (some key) = (s, underlying key)

-- `operator>>`
unfoldable pub read : Istream → ℕ → Istream × ℕ
unfolding sentry read_name find_oid string_to_oid
read s val =
    let (ready, t) = sentry s in
    let (name, u) = read_name t in
    if ready
    then (if u.failed then (u, val) else value_read u val (find_oid name string_to_oid))
    else (t, val)
