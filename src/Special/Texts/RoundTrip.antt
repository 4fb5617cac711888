-- ===== src/Special/Texts/RoundTrip.antt =====
-- A timestamp with a time zone of src/type_converter.h, printed and read.
use qbm_pgsql.Prelude.{
  ℕ, zero, suc, ◌-◌, ◌*◌, ◌^◌, ◌<◌, ◌≡◌, ◌≢◌, refl, ap, ◌∙◌, true, false, List, [], ◌∷◌, ◌++◌, ◌==◌,
  length, null, codes, ok, arith, All,
}
use qbm_pgsql.Prelude.Int.{ℤ, pos, negsuc}
use qbm_pgsql.Decimal.{decimal}
use qbm_pgsql.Decimal.RoundTrip.{decimal-All}
use qbm_pgsql.Special.Texts.{
  Tm, Within, Calendar, padded, year_text, two, clock, fraction_text, utc_to_text, digit_run,
  after_dot, fraction, utc_from_text, seconds_or_failure, tm_fits,
}
use qbm_pgsql.Special.Texts.Scans.{
  no_digit, Spells, padded-Spells, padded-append, digit_run-append, sto-numeral, length-padded,
  numeral, numeral-all_digits,
}
use qbm_pgsql.Special.Texts.Clocks.{scan_time-clock}

after_dot-append :
    (w rest : List ℕ) → All (λ c. (c == b'.') ≡ false) w → after_dot (w ++ rest) ≡ after_dot rest
after_dot-append [] rest p = refl
after_dot-append (c ∷ w) rest (p, ps) = rw p (after_dot-append w rest ps)

after_dot-two : (a : ℤ) (rest : List ℕ) → after_dot (two a rest) ≡ after_dot rest
unfolding padded
after_dot-two a rest = ground arith

after_dot-year :
    (a : ℤ) (rest : List ℕ) → Within 2147483647 a → after_dot (year_text a ++ rest) ≡ after_dot rest
after_dot-year a rest (n, e, p) = rw e (
    after_dot-append (decimal n) rest
      (decimal-All (λ c. (c == b'.') ≡ false) (λ d h. ground arith) n))

pub after_dot-clock :
    (c : Tm) (rest : List ℕ) → Within 2147483647 c.year → after_dot (clock c rest) ≡ after_dot rest
unfolding clock
after_dot-clock c rest y =
    let to_day =
      b'-' ∷ two c.day (b' ' ∷ two c.hour (b':' ∷ two c.minute (b':' ∷ two c.second rest))) in
    let to_hour = b' ' ∷ two c.hour (b':' ∷ two c.minute (b':' ∷ two c.second rest)) in
    after_dot-year c.year (b'-' ∷ two c.month to_day) y
    ∙ after_dot-two c.month to_day
    ∙ after_dot-two c.day to_hour
    ∙ after_dot-two c.hour (b':' ∷ two c.minute (b':' ∷ two c.second rest))
    ∙ after_dot-two c.minute (b':' ∷ two c.second rest)
    ∙ after_dot-two c.second rest

fraction-undotted : (text : List ℕ) → after_dot text ≡ [] → fraction text ≡ ok 0
unfolding fraction digit_run
fraction-undotted text e = rw e refl

pub null-append : (w rest : List ℕ) → numeral w ≡ true → null (w ++ rest) ≡ false
null-append [] rest p = let x : ⊥ = ground arith in absurd x
null-append (c ∷ w) rest p = refl

fraction-dotted :
    (text w rest : List ℕ) (v : ℕ)
    → after_dot text ≡ w ++ rest
    → Spells w v
    → no_digit rest ≡ true
    → v < 2147483648
    → fraction text ≡ ok (v * 10 ^ (6 - length w))
unfolding fraction
fraction-dotted text w rest v e (n, m) q r =
    rw
      (
        e,
        null-append w rest n,
        digit_run-append w rest (numeral-all_digits w n) q,
        sto-numeral w n (omega (arith, m, r)),
        m,
      )
      refl

-- No time is the one that `timegm` fails with.
seconds_or_failure-ok :
    (s : ℤ) (usec : ℕ)
    → s ≢ negsuc 0
    → seconds_or_failure s usec ≡ ok (record { seconds = s; microseconds = pos usec })
seconds_or_failure-ok (pos n) usec p = refl
seconds_or_failure-ok (negsuc zero) usec p = absurd (p refl)
seconds_or_failure-ok (negsuc (suc n)) usec p = refl

pub null-clock : (c : Tm) (rest : List ℕ) → null (clock c rest) ≡ false
unfolding clock
null-clock c rest = null-dash (year_text c.year) _
  where
    null-dash : (w rest : List ℕ) → null (w ++ b'-' ∷ rest) ≡ false
    null-dash [] rest = refl
    null-dash (c ∷ w) rest = refl

pub tm_fits-Within : (tm : Tm) → Within 2147483647 tm.year → Within 12 tm.month → tm_fits tm ≡ true
tm_fits-Within tm (y, e, p) (m, f, q) = rw (e, f) refl

-- The text of a clock of the calendar in front of what starts with no digit.
utc_from_text-clock :
    (cal : Calendar) (t : ℤ) (rest : List ℕ) (usec : ℕ)
    → Within 2147483647 (cal.gmtime t).year
    → no_digit rest ≡ true
    → fraction (clock (cal.gmtime t) rest) ≡ ok usec
    → t ≢ negsuc 0
    → utc_from_text cal (clock (cal.gmtime t) rest)
      ≡ ok (record { seconds = t; microseconds = pos usec })
unfolding utc_from_text
utc_from_text-clock cal t rest usec year q f p =
    rw
      (
        null-clock (cal.gmtime t) rest,
        scan_time-clock (cal.gmtime t) rest year (cal.in_range t) q,
        f,
        tm_fits-Within (cal.gmtime t) year (cal.in_range t).0,
        cal.timegm-gmtime t year,
        seconds_or_failure-ok t usec p,
      )
      refl

-- A time that the calendar prints, a fraction of `w` digits and a zone.
utc_from_text-zone :
    (cal : Calendar) (t : ℤ) (w zone : List ℕ) (v : ℕ)
    → Within 2147483647 (cal.gmtime t).year
    → t ≢ negsuc 0
    → Spells w v
    → v < 2147483648
    → no_digit zone ≡ true
    → utc_from_text cal (clock (cal.gmtime t) (b'.' ∷ w ++ zone))
      ≡ ok (record { seconds = t; microseconds = pos (v * 10 ^ (6 - length w)) })
utc_from_text-zone cal t w zone v year p spells r q =
    let dotted = after_dot-clock (cal.gmtime t) (b'.' ∷ w ++ zone) year in
    utc_from_text-clock cal t (b'.' ∷ w ++ zone) (v * 10 ^ (6 - length w)) year refl
      (fraction-dotted (clock (cal.gmtime t) (b'.' ∷ w ++ zone)) w zone v dotted spells q r) p

after_epoch : (a : ℤ) (s : ℕ) → a ≡ pos s → a ≢ negsuc 0
after_epoch a s p e = let x : ⊥ = ground (arith, p, e) in x

printed_zone :
    (cal : Calendar) (t u : ℕ) (zone : List ℕ)
    → Within 2147483647 (cal.gmtime (pos t)).year
    → u < 1000000
    → no_digit zone ≡ true
    → utc_from_text cal (clock (cal.gmtime (pos t)) (b'.' ∷ padded 6 u zone))
      ≡ ok (record { seconds = pos t; microseconds = pos u })
printed_zone cal t u zone year p q = rw (padded-append 6 u [] zone) (
    utc_from_text-zone cal (pos t) (padded 6 u []) zone u year (after_epoch (pos t) t refl)
      (padded-Spells 5 u (omega arith)) (omega arith) q
    ∙ rw (length-padded 6 u [])
        (ap (λ m. ok (record { seconds = pos t; microseconds = pos m })) (omega arith)))

printed_whole :
    (cal : Calendar) (t : ℕ)
    → Within 2147483647 (cal.gmtime (pos t)).year
    → utc_from_text cal (clock (cal.gmtime (pos t)) (codes "+00"))
      ≡ ok (record { seconds = pos t; microseconds = pos 0 })
printed_whole cal t year =
    let text = clock (cal.gmtime (pos t)) (codes "+00") in
    utc_from_text-clock cal (pos t) (codes "+00") 0 year refl
      (fraction-undotted text (after_dot-clock (cal.gmtime (pos t)) (codes "+00") year))
      (after_epoch (pos t) t refl)

-- A time from 1970 on whose year is an `int` is read back from its text, with its microseconds. The
-- zone has no effect: with six digits of a fraction and behind them anything that starts with no
-- digit, such as `+02`, the text gives the same time.
pub utc_from_text-utc_to_text :
    (cal : Calendar) (t u : ℕ) (zone : List ℕ)
    → Within 2147483647 (cal.gmtime (pos t)).year
    → u < 1000000
    → no_digit zone ≡ true
    → (utc_from_text cal (utc_to_text cal (record { seconds = pos t; microseconds = pos u }))
        ≡ ok (record { seconds = pos t; microseconds = pos u }))
      × (utc_from_text cal (clock (cal.gmtime (pos t)) (b'.' ∷ padded 6 u zone))
          ≡ ok (record { seconds = pos t; microseconds = pos u }))
unfolding utc_to_text fraction_text
utc_from_text-utc_to_text cal t zero zone year p q =
    (printed_whole cal t year, printed_zone cal t 0 zone year p q)
utc_from_text-utc_to_text cal t (suc n) zone year p q =
    (printed_zone cal t (suc n) (codes "+00") year p refl, printed_zone cal t (suc n) zone year p q)
