-- ===== src/Special/Texts/Clocks.antt =====
-- What the reading of a timestamp finds of the date and the time that are printed.
use qbm_pgsql.Prelude.{ℕ, ◌≤◌, ◌≡◌, refl, true, List, [], ◌∷◌, ◌++◌, ok, arith}
use qbm_pgsql.Prelude.Int.{ℤ}
use qbm_pgsql.Decimal.{decimal, skip_space}
use qbm_pgsql.Special.Texts.{
  Tm, Within, padded, year_text, two, clock, scan_int, scan_char, scan_time,
}
use qbm_pgsql.Special.Texts.Scans.{
  no_digit, padded-Spells, padded-append, decimal-Spells, scan_int-Spells,
}

-- The scan of a number of two digits.
scan_int-two :
    (a : ℤ) (rest : List ℕ)
    → Within 60 a
    → no_digit rest ≡ true
    → scan_int (two a rest) ≡ ok (a, rest)
scan_int-two a rest (n, e, p) q =
    rw (e, padded-append 2 n [] rest)
      (scan_int-Spells (padded 2 n []) rest n (padded-Spells 1 n (omega arith)) q (omega arith))

skip_space-two : (a : ℤ) (rest : List ℕ) → skip_space (two a rest) ≡ two a rest
unfolding padded
skip_space-two a rest = ground arith

scan_int-two_spaced :
    (a : ℤ) (rest : List ℕ)
    → Within 60 a
    → no_digit rest ≡ true
    → scan_int (skip_space (two a rest)) ≡ ok (a, rest)
scan_int-two_spaced a rest p q = rw (skip_space-two a rest) (scan_int-two a rest p q)

widen : (m : ℕ) (a : ℤ) → m ≤ 60 → Within m a → Within 60 a
widen m a p (n, e, q) = (n, e, omega arith)

scan_int-year :
    (a : ℤ) (rest : List ℕ)
    → Within 2147483647 a
    → no_digit rest ≡ true
    → scan_int (year_text a ++ rest) ≡ ok (a, rest)
scan_int-year a rest (n, e, p) q =
    rw e (scan_int-Spells (decimal n) rest n (decimal-Spells n (omega arith)) q (omega arith))

pub scan_time-clock :
    (c : Tm) (rest : List ℕ)
    → Within 2147483647 c.year
    → Within 12 c.month
      × Within 31 c.day
      × Within 23 c.hour
      × Within 59 c.minute
      × Within 60 c.second
    → no_digit rest ≡ true
    → scan_time (clock c rest) ≡ ok c
unfolding scan_time clock scan_char
scan_time-clock c rest year (month, day, hour, minute, second) q =
    let to_day =
      b'-' ∷ two c.day (b' ' ∷ two c.hour (b':' ∷ two c.minute (b':' ∷ two c.second rest))) in
    let to_hour = b' ' ∷ two c.hour (b':' ∷ two c.minute (b':' ∷ two c.second rest)) in
    rw
      (
        scan_int-year c.year (b'-' ∷ two c.month to_day) year refl,
        scan_int-two c.month to_day (widen 12 c.month (omega arith) month) refl,
        scan_int-two c.day to_hour (widen 31 c.day (omega arith) day) refl,
        scan_int-two_spaced c.hour (b':' ∷ two c.minute (b':' ∷ two c.second rest))
            (widen 23 c.hour (omega arith) hour) refl,
        scan_int-two c.minute (b':' ∷ two c.second rest) (widen 59 c.minute (omega arith) minute)
            refl,
        scan_int-two c.second rest second q,
      )
      refl
