-- ===== src/Tests/Uuids.antt =====
-- UUIDs of src/protocol_io_traits.h on a small input.
use qbm_pgsql.Prelude.{
  ℕ, zero, suc, ◌≡◌, ◌≢◌, refl, ap, false, some, List, [], ◌∷◌, ◌++◌, length, map, null, ok, All,
  arith,
}
use qbm_pgsql.Traits.{binary_reader_uuid, protocol_read}
use qbm_pgsql.Traits.Uuids.{UuidLibrary, protocol_read_text}

pred : ℕ → ℕ
pred zero = 0
pred (suc n) = n

pred-suc : (u : List ℕ) → map pred (map suc u) ≡ u
unfolding pred
pred-suc [] = refl
pred-suc (c ∷ u) = ap (◌∷◌ c) (pred-suc u)

suc_nonzero : (u : List ℕ) → All (λ c. c ≢ 0) (map suc u)
suc_nonzero [] = tt
suc_nonzero (c ∷ u) = ((λ e. absurd (omega (arith, e))), suc_nonzero u)

suc_nonempty : (u : List ℕ) → length u ≡ 16 → null (map suc u) ≡ false
suc_nonempty [] p = absurd (omega (arith, p))
suc_nonempty (c ∷ u) p = refl

-- A text with each byte one higher.
abbrev shifted : UuidLibrary
shifted = record {
  to_string = map suc;
  from_string = λ s. some (map pred s);
  to_string-nonzero = λ u p. suc_nonzero u;
  to_string-nonempty = suc_nonempty;
  from_string-to_string = λ u p. ap some (pred-suc u);
}

abbrev id : List ℕ
id = 0 ∷ 1 ∷ 2 ∷ 3 ∷ 4 ∷ 5 ∷ 6 ∷ 7 ∷ 8 ∷ 9 ∷ 10 ∷ 11 ∷ 12 ∷ 13 ∷ 14 ∷ 15 ∷ []

text : protocol_read_text shifted (map suc id) ≡ ok (some id, [])
unfolding protocol_read_text pred
text = refl

binary : protocol_read binary_reader_uuid (id ++ 9 ∷ []) ≡ ok (some id, 9 ∷ [])
unfolding protocol_read binary_reader_uuid
binary = refl
