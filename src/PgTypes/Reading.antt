-- ===== src/PgTypes/Reading.antt =====
-- `operator>>` of src/pg_types.cpp on any stream.
use qbm_pgsql.Prelude.{
  ℕ, ◌≡◌, refl, ap, ◌∙◌, sym, ◌⊎◌, inl, inr, true, false, ◌||◌, some, List, [], ◌∷◌, ◌++◌,
  Bool-cases, Option-cases, All,
}
use qbm_pgsql.Decimal.{is_space, skip_space}
use qbm_pgsql.PgTypes.Oids.{Oid, underlying}
use qbm_pgsql.PgTypes.Parsed.{string_to_oid}
use qbm_pgsql.PgTypes.{
  find_oid, printed, Istream, fail, sentry, word, read_name, value_read, read, skipped,
}
use qbm_pgsql.PgTypes.Tables.{find_name-find_oid}
use qbm_pgsql.PgTypes.RoundTrip.{ends, stream, behind, sentry-stream}

abbrev pub AllSpace : List ℕ → Type 0
AllSpace = All (λ c. is_space c ≡ true)

-- White space in front, and a text that is empty or starts with something else.
skip_space-split :
    (t : List ℕ)
    → (spaces : List ℕ) × AllSpace spaces
      × (t ≡ spaces ++ skip_space t)
      × ((skip_space t ≡ [])
          ⊎ ((c : ℕ) × (u : List ℕ) × (skip_space t ≡ c ∷ u) × (is_space c ≡ false)))
skip_space-split [] = ([], tt, refl, inl refl)
skip_space-split (c ∷ t) = elim (Bool-cases (is_space c)) [
  | inl e ↦
      let (spaces, all, split, front) = skip_space-split t in
      (c ∷ spaces, (e, all), rw e (ap (◌∷◌ c) split), rw e front)
  | inr e ↦ ([], tt, rw e refl, inr (c, t, rw e refl, e))
]

word-split : (t : List ℕ) → (t ≡ (word t).0 ++ (word t).1) × (ends (word t).1 ≡ true)
unfolding word
word-split [] = (refl, refl)
word-split (c ∷ t) = elim (Bool-cases (is_space c)) [
  | inl e ↦ (rw e refl, rw e e)
  | inr e ↦ (rw e (ap (◌∷◌ c) (word-split t).0), rw e (word-split t).1)
]

printed-find_oid :
    (name : List ℕ) (o : Oid) → find_oid name string_to_oid ≡ some o → printed (underlying o) ≡ name
unfolding printed
printed-find_oid name o h = rw (find_name-find_oid name o h) refl

unready :
    (s : Istream)
    → ((s.at_end || s.failed) ≡ true) ⊎ (skip_space s.text ≡ [])
    → (t : Istream) × (t.failed ≡ true) × (sentry s ≡ (false, t))
unfolding sentry
unready s (inl e) = (fail s, refl, rw e refl)
unready s (inr e) = elim (Bool-cases (s.at_end || s.failed)) [
  | inl f ↦ (fail s, refl, rw f refl)
  | inr f ↦ ((skipped []).1, refl, rw (f, e) refl)
]

sentry-word :
    (s : Istream) (c : ℕ) (u : List ℕ)
    → (s.at_end || s.failed) ≡ false
    → skip_space s.text ≡ c ∷ u
    → sentry s ≡ (true, stream (c ∷ u))
unfolding sentry
sentry-word s c u p q = rw (p, q) refl

read_name-word :
    (c : ℕ) (u : List ℕ)
    → is_space c ≡ false
    → read_name (stream (c ∷ u)) ≡ (c ∷ (word u).0, behind (word u).1)
unfolding read_name word
read_name-word c u e = rw (sentry-stream c u e, e) refl

-- The operator where there is nothing to read, and where a word begins.
read-nothing :
    (s : Istream) (v : ℕ)
    → ((s.at_end || s.failed) ≡ true) ⊎ (skip_space s.text ≡ [])
    → (t : Istream) × (t.failed ≡ true) × (read s v ≡ (t, v))
unfolding read
read-nothing s v h = let (t, failed, e) = unready s h in (t, failed, rw e refl)

read-word :
    (s : Istream) (v c : ℕ) (u : List ℕ)
    → (s.at_end || s.failed) ≡ false
    → skip_space s.text ≡ c ∷ u
    → is_space c ≡ false
    → read s v ≡ value_read (behind (word u).1) v (find_oid (c ∷ (word u).0) string_to_oid)
unfolding read
read-word s v c u p q e = rw (sentry-word s c u p q, read_name-word c u e) refl

-- The two outcomes of `operator>>`.
abbrev pub Refused : Istream → ℕ → Istream × ℕ → Type 0
Refused s v (t, val) = (t.failed ≡ true) × (val ≡ v)

abbrev pub Accepted : Istream → Istream × ℕ → Type 0
Accepted s (t, val) =
    (spaces : List ℕ) × (o : Oid) × AllSpace spaces
    × (underlying o ≡ val)
    × (s.text ≡ spaces ++ (printed val ++ t.text))
    × (ends t.text ≡ true)
    × (t.failed ≡ false)

-- On any stream, `operator>>` fails and the variable keeps its value, or it takes white space and the
-- name of an enumerator, as it is printed, up to white space or the end of the text, and the
-- variable gets this enumerator.
pub read-all : (s : Istream) (v : ℕ) → Refused s v (read s v) ⊎ Accepted s (read s v)
read-all s v = elim (Bool-cases (s.at_end || s.failed)) [
  | inl e ↦ let (t, failed, done) = read-nothing s v (inl e) in inl (rw done (failed, refl))
  | inr e ↦
      let (spaces, all, split, front) = skip_space-split s.text in
      elim front [
        | inl p ↦ let (t, failed, done) = read-nothing s v (inr p) in inl (rw done (failed, refl))
        | inr (c, u, p, plain) ↦
            let done = read-word s v c u e p plain in
            elim (Option-cases (find_oid (c ∷ (word u).0) string_to_oid)) [
              | inl n ↦ inl (rw (done, n) (refl, refl))
              | inr (o, n) ↦ inr (
                  rw (done, n)
                    (
                      spaces,
                      o,
                      all,
                      refl,
                      split
                          ∙ ap (◌++◌ spaces) (
                              p
                              ∙ ap (◌∷◌ c) (word-split u).0
                              ∙ ap (λ w. w ++ (word u).1)
                                  (sym (printed-find_oid (c ∷ (word u).0) o n))),
                      (word-split u).1,
                      refl,
                    ))
            ]
      ]
]
