-- ===== src/Tests/PgTypes.antt =====
-- Names of types printed to streams and read from them.
use qbm_pgsql.Prelude.{◌≡◌, ◌≢◌, refl, ◌⊎◌, [], ◌++◌, codes}
use qbm_pgsql.Decimal.{to_string}
use qbm_pgsql.PgTypes.{Istream, print, read, fail}
use qbm_pgsql.PgTypes.Oids.{Oid, underlying}
use qbm_pgsql.PgTypes.RoundTrip.{fresh, stream, behind, read-print}
use qbm_pgsql.PgTypes.Reading.{Refused, Accepted, read-all}

integer_printed : (print fresh 23).written ≡ codes "int4"
unfolding print
integer_printed = refl

-- The array of bigints has no enumerator; a printed number may be negative.
array_printed : (print fresh 1016).written ≡ codes "oid_1016"
unfolding print to_string
array_printed = refl

negative_printed : (print fresh 4294967295).written ≡ codes "oid_-1"
unfolding print to_string
negative_printed = refl

abbrev two_names : Istream
two_names = stream (codes "\n  timestamptz oid_16")

first_read : read two_names 0 ≡ (behind (codes " oid_16"), 1184)
unfolding read underlying
first_read = refl

second_refused : read (read two_names 0).0 7 ≡ (fail (behind []), 7)
unfolding read
second_refused = refl

read-print_example :
    ((o : Oid) × (underlying o ≡ 1184)
      × (read (stream ((print fresh 1184).written ++ codes " x")) 0 ≡ (behind (codes " x"), 1184)))
    ⊎ (((o : Oid) → underlying o ≢ 1184)
        × ((print fresh 1184).written ≡ codes "oid_" ++ to_string 2147483648 1184)
        × (read (stream ((print fresh 1184).written ++ codes " x")) 0
            ≡ (fail (behind (codes " x")), 0)))
read-print_example = read-print 1184 0 (codes " x") refl

read-all_example : Refused two_names 5 (read two_names 5) ⊎ Accepted two_names (read two_names 5)
read-all_example = read-all two_names 5
