-- ===== src/Special/Texts/Local/RoundTrip.antt =====
-- A timestamp of local time of src/type_converter.h, printed and read.
use native.Mathlib.Nat.{pow-suc}
use qbm_pgsql.Prelude.{
  ℕ, zero, suc, ◌+◌, ◌-◌, ◌/◌, ◌%◌, ◌^◌, ◌≤◌, ◌<◌, ◌≡◌, refl, sym, ap, ◌∙◌, true, ◌&&◌, leb, ltb,
  inl, inr, Bool-cases, List, [], ◌∷◌, ◌++◌, length, ok, arith, length-append, append-nil,
}
use qbm_pgsql.Prelude.Int.{ℤ, pos}
use qbm_pgsql.Decimal.{digits, decimal, magnitude, is_digit, skip_space}
use qbm_pgsql.Special.Texts.{Tm, Within, Calendar, digit_run}
use qbm_pgsql.Special.Texts.Scans.{
  no_digit, numeral-all_digits, Spells, decimal-Spells, digit_run-append,
}
use qbm_pgsql.Special.Texts.Local.{
  zeros, filled, local_to_text, matched_int, matched_char, matched_spaces, matched_fraction,
  local_from_text,
}

-- A numeral of `n` digits with the value `v`.
abbrev Fills : ℕ → List ℕ → ℕ → Type 0
Fills n w v = Spells w v × (length w ≡ n)

length-digits_below :
    (f n v : ℕ) (s : List ℕ) → v < 10 ^ suc n → length (digits f v s) ≤ suc n + length s
unfolding digits
length-digits_below zero n v s p = omega arith
length-digits_below (suc f) zero v s p =
    let small : ltb v 10 ≡ true = ground arith in rw small (omega arith)
length-digits_below (suc f) (suc n) v s p =
    let more =
      length-digits_below f n (v / 10) ((b'0' + v % 10) ∷ s) (omega (arith, pow-suc 10 (suc n))) in
    elim (Bool-cases (ltb v 10)) [ inl e ↦ rw e (omega arith) | inr e ↦ rw e (omega (arith, more)) ]

length-zeros : (n : ℕ) → length (zeros n) ≡ n
length-zeros zero = refl
length-zeros (suc n) = omega (arith, length-zeros n)

zeros-Spells : (n : ℕ) (w : List ℕ) (v : ℕ) → Spells w v → Spells (zeros n ++ w) v
unfolding magnitude
zeros-Spells zero w v s = s
zeros-Spells (suc n) w v s =
    let (d, m) = zeros-Spells n w v s in (numeral-all_digits (zeros n ++ w) d, m)

length-decimal_below : (n v : ℕ) → v < 10 ^ suc n → length (decimal v) ≤ suc n
unfolding decimal
length-decimal_below n v p = omega (arith, length-digits_below 20 n v [] p)

filled-Fills : (n v : ℕ) → v < 10 ^ suc n → v < 1000000 → Fills (suc n) (filled (suc n) (pos v)) v
unfolding filled
filled-Fills n v p q =
    let gap = suc n - length (decimal v) in
    (
      zeros-Spells gap (decimal v) v (decimal-Spells v (omega (arith, q))),
      length-append (zeros gap) (decimal v)
          ∙ omega (arith, length-zeros gap, length-decimal_below n v p),
    )

matched_int-Fills :
    (lo hi n v : ℕ) (w rest : List ℕ)
    → Fills n w v
    → (leb lo n && leb n hi) ≡ true
    → no_digit rest ≡ true
    → matched_int lo hi (w ++ rest) ≡ ok (v, rest)
unfolding matched_int
matched_int-Fills lo hi n v w rest ((d, m), l) p q =
    rw (digit_run-append w rest (numeral-all_digits w d) q, l, p, m) refl

-- The match of a number of two digits.
matched_int-two :
    (v : ℕ) (rest : List ℕ)
    → v ≤ 60
    → no_digit rest ≡ true
    → matched_int 1 2 (filled 2 (pos v) ++ rest) ≡ ok (v, rest)
matched_int-two v rest p q =
    matched_int-Fills 1 2 2 v (filled 2 (pos v)) rest (filled-Fills 1 v (omega arith) (omega arith))
      refl q

matched_int-four :
    (v : ℕ) (rest : List ℕ)
    → v ≤ 9999
    → no_digit rest ≡ true
    → matched_int 4 4 (filled 4 (pos v) ++ rest) ≡ ok (v, rest)
matched_int-four v rest p q =
    matched_int-Fills 4 4 4 v (filled 4 (pos v)) rest (filled-Fills 3 v (omega arith) (omega arith))
      refl q

matched_fraction-filled : (v : ℕ) → v < 1000000 → matched_fraction (b'.' ∷ filled 6 (pos v)) ≡ ok v
unfolding matched_fraction
matched_fraction-filled v p =
    let ((d, m), l) = filled-Fills 5 v (omega arith) p in
    let w = filled 6 (pos v) in
    let alone =
      ap digit_run (sym (append-nil w)) ∙ digit_run-append w [] (numeral-all_digits w d) refl in
    rw (alone, l, append-nil w, m) refl

-- A text that is a numeral is not skipped as space.
skip_space-Fills :
    (n : ℕ) (w rest : List ℕ) (v : ℕ) → Fills n w v → skip_space (w ++ rest) ≡ w ++ rest
skip_space-Fills n [] rest v ((d, m), l) = let x : ⊥ = ground arith in absurd x
skip_space-Fills n (c ∷ w) rest v ((d, m), l) =
    let digit : is_digit 10 c ≡ true = ground arith in ground (arith, digit)

matched_spaces-two :
    (v : ℕ) (rest : List ℕ)
    → v ≤ 60
    → matched_spaces (b' ' ∷ (filled 2 (pos v) ++ rest)) ≡ ok (filled 2 (pos v) ++ rest)
unfolding matched_spaces
matched_spaces-two v rest p =
    ap ok
      (skip_space-Fills 2 (filled 2 (pos v)) rest v (filled-Fills 1 v (omega arith) (omega arith)))

-- A local timestamp is printed in universal time and read in local time: the text of a time whose
-- year has four digits at most is read, its microseconds come back, and its seconds are what
-- `mktime` makes of the numbers that `gmtime` gives.
pub local_from_text-local_to_text :
    (cal : Calendar) (mktime : Tm → ℤ) (s : ℤ) (u : ℕ)
    → Within 9999 (cal.gmtime s).year
    → u < 1000000
    → local_from_text mktime (local_to_text cal (record { seconds = s; microseconds = pos u }))
      ≡ ok (record { seconds = mktime (cal.gmtime s); microseconds = pos u })
unfolding local_from_text local_to_text matched_char
local_from_text-local_to_text cal mktime s u (y, ye, yp) p =
    let ((mo, moe, mop), (d, de, dp), (h, he, hp), (mi, mie, mip), (sec, se, sp)) =
      cal.in_range s in
    let to_second = filled 2 (pos sec) ++ b'.' ∷ filled 6 (pos u) in
    let to_minute = filled 2 (pos mi) ++ b':' ∷ to_second in
    let to_hour = filled 2 (pos h) ++ b':' ∷ to_minute in
    let to_day = filled 2 (pos d) ++ b' ' ∷ to_hour in
    rw
      (
        ye,
        moe,
        de,
        he,
        mie,
        se,
        matched_int-four y (b'-' ∷ (filled 2 (pos mo) ++ b'-' ∷ to_day)) yp refl,
        matched_int-two mo (b'-' ∷ to_day) (omega arith) refl,
        matched_int-two d (b' ' ∷ to_hour) (omega arith) refl,
        matched_spaces-two h (b':' ∷ to_minute) (omega arith),
        matched_int-two h (b':' ∷ to_minute) (omega arith) refl,
        matched_int-two mi (b':' ∷ to_second) (omega arith) refl,
        matched_int-two sec (b'.' ∷ filled 6 (pos u)) sp refl,
        matched_fraction-filled u p,
      )
      refl
