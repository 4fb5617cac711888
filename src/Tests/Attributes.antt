-- ===== src/Tests/Attributes.antt =====
-- Attributes of pgsql.h on small inputs.
use qbm_pgsql.Prelude.{
  ℕ, ◌≡◌, refl, List, [], ◌∷◌, codes, bytes_eq, bytes_eq_sound, subst, true, ok, throws,
  runtime_error, arith,
}
use qbm_pgsql.Attributes.{Dict, parse}
use qbm_pgsql.Attributes.Entries.{Distinct, value_under}
use qbm_pgsql.Attributes.RoundTrip.{attributes, parse-attributes}

abbrev rest : List (List ℕ × List ℕ)
rest = (codes "s", codes "a=") ∷ (codes "r", codes "x") ∷ []

bytes_eq_trans : (a b c : List ℕ) → bytes_eq a b ≡ true → bytes_eq b c ≡ true → bytes_eq a c ≡ true
bytes_eq_trans a b c p q = subst (λ s. bytes_eq a s ≡ true) (bytes_eq_sound b c q) p

parse-attributes_example :
    (d : Dict) × (parse bytes_eq (attributes bytes_eq (codes "r") (codes "n\"") rest) ≡ ok d)
    × Distinct bytes_eq d
    × ((m : List ℕ)
        → value_under bytes_eq d m ≡ value_under bytes_eq ((codes "r", codes "n\"") ∷ rest) m)
parse-attributes_example =
    parse-attributes bytes_eq (codes "r") (codes "n\"") rest bytes_eq_trans
      ((refl, tt), omega arith) (refl, (refl, tt), omega arith)
      (
        ((refl, tt), omega arith),
        (refl, (refl, tt), omega arith),
        (((refl, tt), omega arith), (refl, tt, omega arith), tt),
      )

parse_quoted :
    parse bytes_eq (codes "a='x,y' ;b=1")
    ≡ ok ((codes "a", codes "x,y") ∷ (codes "b", codes "1") ∷ [])
unfolding parse
parse_quoted = refl

parse_control : parse bytes_eq (10 ∷ []) ≡ throws runtime_error
unfolding parse
parse_control = refl
