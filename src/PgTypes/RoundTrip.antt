-- ===== src/PgTypes/RoundTrip.antt =====
-- The stream operators of src/pg_types.cpp: what one prints, the other reads.
use qbm_pgsql.Prelude.{
  ℕ, ◌+◌, ◌-◌, ◌≡◌, ◌≢◌, refl, ap, ◌∙◌, ◌⊎◌, inl, inr, Bool, true, false, ◌&&◌, not, List, [], ◌∷◌,
  ◌++◌, map, leb, Bool-cases, Option-cases, All, null, arith, codes, at_entry,
}
use qbm_pgsql.Decimal.{is_space, to_string, decimal}
use qbm_pgsql.Decimal.RoundTrip.{decimal-All}
use qbm_pgsql.PgTypes.Oids.{Oid, underlying}
use qbm_pgsql.PgTypes.Printed.{oid_to_string}
use qbm_pgsql.PgTypes.Parsed.{string_to_oid}
use qbm_pgsql.PgTypes.{
  find_name, find_oid, Ostream, printed, print, Istream, fail, sentry, word, read_name, value_read,
  read,
}
use qbm_pgsql.PgTypes.Tables.{has_name, find_name_sound, find_oid-find_name, find_oid-number}

-- What may follow a word.
abbrev pub ends : List ℕ → Bool
ends [] = true
ends (c ∷ s) = is_space c

abbrev no_space : List ℕ → Bool
no_space [] = true
no_space (c ∷ s) = not (is_space c) && no_space s

abbrev is_word : List ℕ → Bool
is_word s = not (null s) && no_space s

abbrev pub fresh : Ostream
fresh = record { written = []; good = true }

abbrev pub stream : List ℕ → Istream
stream s = record { text = s; at_end = false; failed = false }

-- The stream behind a word.
abbrev pub behind : List ℕ → Istream
behind rest = record { text = rest; at_end = null rest; failed = false }

word-append :
    (w rest : List ℕ) → no_space w ≡ true → ends rest ≡ true → word (w ++ rest) ≡ (w, rest)
unfolding word
word-append [] [] p q = refl
word-append [] (c ∷ s) p q = rw q refl
word-append (c ∷ w) rest p q =
    let plain : is_space c ≡ false = ground arith in rw (plain, word-append w rest (ground arith) q)

pub sentry-stream :
    (c : ℕ) (s : List ℕ) → is_space c ≡ false → sentry (stream (c ∷ s)) ≡ (true, stream (c ∷ s))
unfolding sentry
sentry-stream c s p = rw p refl

read_name-stream :
    (c : ℕ) (w rest : List ℕ)
    → is_space c ≡ false
    → no_space w ≡ true
    → ends rest ≡ true
    → read_name (stream (c ∷ w ++ rest)) ≡ (c ∷ w, behind rest)
unfolding read_name word
read_name-stream c w rest p q r = rw (sentry-stream c (w ++ rest) p, p, word-append w rest q r) refl

read-append :
    (w rest : List ℕ) (v : ℕ)
    → is_word w ≡ true
    → ends rest ≡ true
    → read (stream (w ++ rest)) v ≡ value_read (behind rest) v (find_oid w string_to_oid)
unfolding read
read-append [] rest v p q = let absurdity : ⊥ = ground arith in absurd absurdity
read-append (c ∷ w) rest v p q =
    let plain : is_space c ≡ false = ground arith in
    rw (sentry-stream c (w ++ rest) plain, read_name-stream c w rest plain (ground arith) q) refl

names_are_words : map (λ e. is_word e.1) oid_to_string ≡ map (λ e. true) oid_to_string
unfolding oid_to_string
names_are_words = refl

no_space-All : (s : List ℕ) → All (λ c. is_space c ≡ false) s → no_space s ≡ true
no_space-All [] h = refl
no_space-All (c ∷ s) h = rw (h.0, no_space-All s h.1)

no_space-to_string : (val : ℕ) → no_space (to_string 2147483648 val) ≡ true
unfolding to_string
no_space-to_string val = elim (Bool-cases (leb 2147483648 val)) [
  | inl p ↦ rw p (plain (2147483648 + 2147483648 - val))
  | inr p ↦ rw p (plain val)
]
  where
    plain : (n : ℕ) → no_space (decimal n) ≡ true
    plain n =
        no_space-All (decimal n) (decimal-All (λ c. is_space c ≡ false) (λ d p. ground arith) n)

-- A type printed to a stream, at the end of the text or with white space behind it, is read back as
-- that type where it has an enumerator, the rest of the text left to read; a number that is none is
-- printed as `oid_` with the number, signed, in decimal, and this is refused: the stream fails and
-- the variable keeps its value.
pub read-print :
    (val v : ℕ) (rest : List ℕ)
    → ends rest ≡ true
    → ((o : Oid) × (underlying o ≡ val)
        × (read (stream ((print fresh val).written ++ rest)) v ≡ (behind rest, val)))
      ⊎ (((o : Oid) → underlying o ≢ val)
          × ((print fresh val).written ≡ codes "oid_" ++ to_string 2147483648 val)
          × (read (stream ((print fresh val).written ++ rest)) v ≡ (fail (behind rest), v)))
unfolding print printed
read-print val v rest p = elim (Option-cases (find_name val oid_to_string)) [
  | inl e ↦ inr (
    λ o same. has_name o (ap (λ n. find_name n oid_to_string) same ∙ e),
    rw e refl,
    rw e (
        read-append (codes "oid_" ++ to_string 2147483648 val) rest v (no_space-to_string val) p
        ∙ rw (find_oid-number val) refl),
  )
  | inr (name, e) ↦
      let (i, key, found, same) = find_name_sound val oid_to_string name e in
      let (o, known, number) = find_oid-find_name val name e in
      let plain =
        at_entry (λ x. is_word x.1) (λ x. true) oid_to_string i (key, name) names_are_words found in
      inl (o, number, rw e (read-append name rest v plain p ∙ rw (known, number) refl))
]
