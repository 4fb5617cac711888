-- ===== src/Special/Texts.antt =====
-- `to_text` and `from_text` of the timestamps with a time zone of src/type_converter.h.
pub mod Scans
pub mod Clocks
pub mod Local
pub mod Plain
pub mod RoundTrip
use qbm_pgsql.Prelude.{
  ℕ, zero, suc, ◌+◌, ◌-◌, ◌*◌, ◌/◌, ◌%◌, ◌^◌, ◌≤◌, ◌<◌, ◌≡◌, Bool, true, false, Option, none, some,
  List, [], ◌∷◌, ◌++◌, ltb, leb, ◌==◌, if◌then◌else◌, ◌&&◌, length, null, codes, Result, ok, throws,
  undefined, runtime_error, ◌>>=◌,
}
use qbm_pgsql.Prelude.Int.{ℤ, pos, negsuc, pos_part, neg_part, sub_ℕ, is_negative}
use qbm_pgsql.Decimal.{decimal, magnitude, is_digit, skip_space, sign, sto}
use qbm_pgsql.Special.{Timestamp}

-- `std::tm`, with the month from 1 on and the year as it is counted.
pub record Tm : Type 0 where
  pub year : ℤ
  pub month : ℤ
  pub day : ℤ
  pub hour : ℤ
  pub minute : ℤ
  pub second : ℤ

-- A number from 0 to `most`.
abbrev pub Within : ℕ → ℤ → Type 0
Within most a = (n : ℕ) × (a ≡ pos n) × (n ≤ most)

-- `gmtime` and `timegm` of the C library of the system.
pub record Calendar : Type 0 where
  pub gmtime : ℤ → Tm
  pub timegm : Tm → ℤ
  pub in_range :
      (t : ℤ)
      → Within 12 (gmtime t).month
        × Within 31 (gmtime t).day
        × Within 23 (gmtime t).hour
        × Within 59 (gmtime t).minute
        × Within 60 (gmtime t).second
  pub timegm-gmtime : (t : ℤ) → Within 2147483647 (gmtime t).year → timegm (gmtime t) ≡ t

-- The last `n` decimal digits of a number, in front of others.
unfoldable pub padded : ℕ → ℕ → List ℕ → List ℕ
padded zero v acc = acc
padded (suc n) v acc = padded n (v / 10) ((b'0' + v % 10) ∷ acc)

abbrev pub year_text : ℤ → List ℕ
year_text (pos n) = decimal n
year_text (negsuc n) = b'-' ∷ decimal (suc n)

abbrev pub two : ℤ → List ℕ → List ℕ
two a s = padded 2 (pos_part a) s

-- `strftime` with "%Y-%m-%d %H:%M:%S", in front of the rest of the text.
unfoldable pub clock : Tm → List ℕ → List ℕ
clock c rest =
    year_text c.year
    ++ b'-'
      ∷ two c.month
          (b'-' ∷ two c.day (b' ' ∷ two c.hour (b':' ∷ two c.minute (b':' ∷ two c.second rest))))

-- The fraction, if it is positive, and the zone.
unfoldable pub fraction_text : ℤ → List ℕ
fraction_text (pos zero) = codes "+00"
fraction_text (pos (suc n)) = b'.' ∷ padded 6 (suc n) (codes "+00")
fraction_text (negsuc n) = codes "+00"

unfoldable pub utc_to_text : Calendar → Timestamp → List ℕ
utc_to_text cal t = clock (cal.gmtime t.seconds) (fraction_text t.microseconds)

-- The digits in front, and what follows them.
unfoldable pub digit_run : List ℕ → List ℕ × List ℕ
digit_run [] = ([], [])
digit_run (c ∷ s) =
    let (run, rest) = digit_run s in if is_digit 10 c then (c ∷ run, rest) else ([], c ∷ s)

-- `%d` of `sscanf`: a number that is no `int` is undefined. What does not match ends in the same
-- exception wherever it is.
abbrev pub int_of : Bool → ℕ → Result ℤ
int_of true n = if ltb 2147483648 n then undefined else ok (sub_ℕ 0 n)
int_of false n = if leb 2147483648 n then undefined else ok (pos n)

unfoldable pub scan_int : List ℕ → Result (ℤ × List ℕ)
unfolding digit_run magnitude
scan_int s =
    let (negative, t) = sign (skip_space s) in
    let (run, rest) = digit_run t in
    if null run
    then throws runtime_error
    else (do a ← int_of negative (magnitude 10 0 run); ok (a, rest))

unfoldable pub scan_char : ℕ → List ℕ → Result (List ℕ)
scan_char c [] = throws runtime_error
scan_char c (d ∷ s) = if d == c then ok s else throws runtime_error

-- "%d-%d-%d %d:%d:%d"
unfoldable pub scan_time : List ℕ → Result Tm
scan_time text = do
  (year, a) ← scan_int text
  b ← scan_char b'-' a
  (month, c) ← scan_int b
  d ← scan_char b'-' c
  (day, e) ← scan_int d
  (hour, f) ← scan_int (skip_space e)
  g ← scan_char b':' f
  (minute, i) ← scan_int g
  j ← scan_char b':' i
  (second, k) ← scan_int j
  ok (record {
    year = year;
    month = month;
    day = day;
    hour = hour;
    minute = minute;
    second = second;
  })

abbrev pub after_dot : List ℕ → List ℕ
after_dot [] = []
after_dot (c ∷ s) = if c == b'.' then s else after_dot s

-- The digits behind the first dot, if there is something behind it, as millionths.
unfoldable pub fraction : List ℕ → Result ℕ
fraction text =
    let (run, rest) = digit_run (after_dot text) in
    if null (after_dot text)
    then ok 0
    else (do usec ← sto 2147483648 10 run; ok (usec * 10 ^ (6 - length run)))

-- The year from 1900 on and the month from 0 on are numbers of type `int`.
abbrev pub tm_fits : Tm → Bool
tm_fits tm = leb (neg_part tm.year) 2147481748 && leb (neg_part tm.month) 2147483647

-- The failure of `timegm` is -1. The microseconds are added to the seconds by qb.
abbrev pub seconds_or_failure : ℤ → ℕ → Result Timestamp
seconds_or_failure (pos n) usec = ok (record { seconds = pos n; microseconds = pos usec })
seconds_or_failure (negsuc zero) usec = throws runtime_error
seconds_or_failure (negsuc (suc n)) usec =
    ok (record { seconds = negsuc (suc n); microseconds = pos usec })

unfoldable pub utc_from_text : Calendar → List ℕ → Result Timestamp
utc_from_text cal text = if null text then throws runtime_error else (do
  tm ← scan_time text
  usec ← fraction text
  if tm_fits tm then seconds_or_failure (cal.timegm tm) usec else undefined)
