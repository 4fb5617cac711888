-- ===== src/PgTypes/Tables.antt =====
-- The two tables of src/pg_types.cpp against each other.
use qbm_pgsql.Prelude.{
  ℕ, suc, ◌≡◌, ◌≢◌, refl, ap, inl, inr, Bool, true, false, ◌&&◌, ◌||◌, none, some, List, [], ◌∷◌,
  ◌++◌, map, get_elem?, ◌==◌, leb, bytes_eq, bytes_eq_sound, Bool-cases, arith, at_entry, ==_iff,
  codes,
}
use qbm_pgsql.Decimal.{to_string}
use qbm_pgsql.Decimal.RoundTrip.{decimal-Starts}
use qbm_pgsql.PgTypes.Oids.{Oid, underlying}
use qbm_pgsql.PgTypes.Printed.{oid_to_string}
use qbm_pgsql.PgTypes.Parsed.{string_to_oid}
use qbm_pgsql.PgTypes.{find_name, find_oid}

names_read : map (λ e. find_oid e.1 string_to_oid) oid_to_string ≡ map (λ e. some e.0) oid_to_string
unfolding find_oid oid_to_string string_to_oid
names_read = refl

names_printed :
    map (λ e. find_name (underlying e.1) oid_to_string) string_to_oid
    ≡ map (λ e. some e.0) string_to_oid
unfolding find_name underlying oid_to_string string_to_oid
names_printed = refl

-- Every enumerator has a name.
pub has_name : (o : Oid) → find_name (underlying o) oid_to_string ≢ none
unfolding find_name underlying oid_to_string
has_name o = ground arith

pub find_name_sound :
    (val : ℕ) (t : List (Oid × List ℕ)) (name : List ℕ)
    → find_name val t ≡ some name
    → (i : ℕ) × (o : Oid) × (get_elem? t i ≡ some (o, name)) × (underlying o ≡ val)
unfolding find_name
find_name_sound val [] name h = let absurdity : ⊥ = cc in absurd absurdity
find_name_sound val ((key, n) ∷ t) name h = elim (Bool-cases (underlying key == val)) [
  | inl e ↦ (0, key, ground arith, (==_iff (underlying key) val).0 e)
  | inr e ↦
      let (i, o, found, same) = find_name_sound val t name (ground arith) in (suc i, o, found, same)
]

find_oid_sound :
    (name : List ℕ) (t : List (List ℕ × Oid)) (o : Oid)
    → find_oid name t ≡ some o
    → (i : ℕ) × (get_elem? t i ≡ some (name, o))
unfolding find_oid
find_oid_sound name [] o h = let absurdity : ⊥ = cc in absurd absurdity
find_oid_sound name ((key, val) ∷ t) o h = elim (Bool-cases (bytes_eq key name)) [
  | inl e ↦ (0, ground (arith, bytes_eq_sound key name e))
  | inr e ↦ let (i, found) = find_oid_sound name t o (ground arith) in (suc i, found)
]

-- A name that the table has for a number is read as the enumerator of this number, ...
pub find_oid-find_name :
    (val : ℕ) (name : List ℕ)
    → find_name val oid_to_string ≡ some name
    → (o : Oid) × (find_oid name string_to_oid ≡ some o) × (underlying o ≡ val)
find_oid-find_name val name h =
    let (i, o, found, same) = find_name_sound val oid_to_string name h in
    (
      o,
      at_entry (λ e. find_oid e.1 string_to_oid) (λ e. some e.0) oid_to_string i (o, name)
          names_read found,
      same,
    )

-- ... and an enumerator that a name is read as has this name.
pub find_name-find_oid :
    (name : List ℕ) (o : Oid)
    → find_oid name string_to_oid ≡ some o
    → find_name (underlying o) oid_to_string ≡ some name
find_name-find_oid name o h =
    let (i, found) = find_oid_sound name string_to_oid o h in
    at_entry (λ e. find_name (underlying e.1) oid_to_string) (λ e. some e.0) string_to_oid i
      (name, o) names_printed found

-- Whether the fifth character belongs to a number, as it does where a number is printed for a name.
abbrev numbered : List ℕ → Bool
numbered (a ∷ b ∷ c ∷ d ∷ e ∷ s) = e == b'-' || (leb b'0' e && leb e b'9')
numbered s = false

no_name_numbered : map (λ e. numbered e.0) string_to_oid ≡ map (λ e. false) string_to_oid
unfolding string_to_oid
no_name_numbered = refl

numbered_unknown :
    (name : List ℕ) (t : List (List ℕ × Oid))
    → map (λ e. numbered e.0) t ≡ map (λ e. false) t
    → numbered name ≡ true
    → find_oid name t ≡ none
unfolding find_oid
numbered_unknown name [] h p = refl
numbered_unknown name ((key, val) ∷ t) h p = elim (Bool-cases (bytes_eq key name)) [
  | inl e ↦
      let same = ap numbered (bytes_eq_sound key name e) in
      let plain = at_entry (λ e. numbered e.0) (λ e. false) ((key, val) ∷ t) 0 (key, val) h refl in
      let absurdity : ⊥ = ground arith in absurd absurdity
  | inr e ↦ rw e (numbered_unknown name t (cc) p)
]

numbered-to_string : (val : ℕ) → numbered (codes "oid_" ++ to_string 2147483648 val) ≡ true
unfolding to_string
numbered-to_string val =
    let (c, t, e, lo, hi) = decimal-Starts val in
    elim (Bool-cases (leb 2147483648 val)) [ inl p ↦ rw p refl | inr p ↦ rw (p, e) (ground arith) ]

-- What is printed for a number without a name is no name.
pub find_oid-number :
    (val : ℕ) → find_oid (codes "oid_" ++ to_string 2147483648 val) string_to_oid ≡ none
find_oid-number val =
    numbered_unknown (codes "oid_" ++ to_string 2147483648 val) string_to_oid no_name_numbered
      (numbered-to_string val)
