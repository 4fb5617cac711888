-- ===== src/Tests/Stamps.antt =====
-- Texts of timestamps of src/type_converter.h on a small input.
use qbm_pgsql.Prelude.{
  ◌+◌, ◌*◌, ◌/◌, ◌%◌, ◌≡◌, refl, ap, ◌∷◌, codes, ok, throws, runtime_error, arith,
}
use qbm_pgsql.Prelude.Int.{ℤ, pos, negsuc, pos_part, pred_ℤ, sub_ℕ}
use qbm_pgsql.Decimal.{sto, magnitude, decimal, digits}
use qbm_pgsql.Special.Texts.{
  Tm, Within, Calendar, padded, clock, fraction_text, utc_to_text, digit_run, scan_int, scan_char,
  scan_time, fraction, utc_from_text,
}
use qbm_pgsql.Special.Texts.Local.{
  filled, local_to_text, matched_int, matched_char, matched_spaces, matched_fraction,
  local_from_text,
}
use qbm_pgsql.Special.Texts.Local.RoundTrip.{local_from_text-local_to_text}
use qbm_pgsql.Special.Texts.Plain.{plain_fraction, plain_from_text}
use qbm_pgsql.Special.Texts.RoundTrip.{utc_from_text-utc_to_text}

-- A calendar with years of a minute.
abbrev from_second : ℤ → Tm
from_second (pos n) = record {
  year = pos (n / 60);
  month = pos 1;
  day = pos 1;
  hour = pos 0;
  minute = pos 0;
  second = pos (n % 60);
}
from_second (negsuc n) = record {
  year = negsuc n;
  month = pos 1;
  day = pos 1;
  hour = pos 0;
  minute = pos 0;
  second = pos 0;
}

second_bounds :
    (t : ℤ)
    → Within 12 (from_second t).month
      × Within 31 (from_second t).day
      × Within 23 (from_second t).hour
      × Within 59 (from_second t).minute
      × Within 60 (from_second t).second
second_bounds (pos n) = (
  (1, refl, omega arith),
  (1, refl, omega arith),
  (0, refl, omega arith),
  (0, refl, omega arith),
  (n % 60, refl, omega arith),
)
second_bounds (negsuc n) = (
  (1, refl, omega arith),
  (1, refl, omega arith),
  (0, refl, omega arith),
  (0, refl, omega arith),
  (0, refl, omega arith),
)

abbrev to_second : Tm → ℤ
to_second c = pos (pos_part c.year * 60 + pos_part c.second)

to_second-from_second :
    (t : ℤ) → Within 2147483647 (from_second t).year → to_second (from_second t) ≡ t
to_second-from_second (pos n) p = ap pos (omega arith)
to_second-from_second (negsuc n) (m, e, p) = let x : ⊥ = ground (arith, e) in absurd x

abbrev short : Calendar
short = record {
  gmtime = from_second;
  timegm = to_second;
  in_range = second_bounds;
  timegm-gmtime = to_second-from_second;
}

-- The minute 2024, 56 seconds and a quarter.
text :
    utc_to_text short (record { seconds = pos 121496; microseconds = pos 250000 })
    ≡ codes "2024-01-01 00:00:56.250000+00"
unfolding utc_to_text clock fraction_text padded decimal digits
text = refl

behind_zone :
    utc_from_text short (codes "2024-1-1 0:00:56.25+02")
    ≡ ok (record { seconds = pos 121496; microseconds = pos 250000 })
unfolding utc_from_text scan_time scan_int scan_char fraction digit_run sto magnitude
behind_zone = refl

no_time : utc_from_text short (codes "2024-01-01") ≡ throws runtime_error
unfolding utc_from_text scan_time scan_int scan_char fraction digit_run sto magnitude
no_time = refl

-- The suffix counts as three digits.
suffix :
    plain_from_text to_second (codes "2024-1-1 0:00:56.25+02")
    ≡ ok (record { seconds = pos 121496; microseconds = pos 250 })
unfolding plain_from_text plain_fraction scan_time scan_int scan_char digit_run sto magnitude
suffix = refl

utc_from_text-utc_to_text_example :
    (utc_from_text short
        (utc_to_text short (record { seconds = pos 121496; microseconds = pos 250000 }))
      ≡ ok (record { seconds = pos 121496; microseconds = pos 250000 }))
    × (utc_from_text short
          (clock (short.gmtime (pos 121496)) (b'.' ∷ padded 6 250000 (codes "+02")))
        ≡ ok (record { seconds = pos 121496; microseconds = pos 250000 }))
utc_from_text-utc_to_text_example =
    utc_from_text-utc_to_text short 121496 250000 (codes "+02") (2024, refl, omega arith)
      (omega arith) refl

-- Local time an hour ahead of universal time.
abbrev an_hour_ahead : Tm → ℤ
an_hour_ahead c = pred_ℤ (sub_ℕ (pos_part c.year * 60 + pos_part c.second) 3599)

local_from_text-local_to_text_example :
    local_from_text an_hour_ahead
      (local_to_text short (record { seconds = pos 121496; microseconds = pos 250 }))
    ≡ ok (record { seconds = pos 117896; microseconds = pos 250 })
local_from_text-local_to_text_example =
    local_from_text-local_to_text short an_hour_ahead (pos 121496) 250 (2024, refl, omega arith)
      (omega arith)

local_text :
    local_to_text short (record { seconds = pos 121496; microseconds = pos 250 })
    ≡ codes "2024-01-01 00:00:56.000250"
unfolding local_to_text filled decimal digits
local_text = refl

local_short :
    local_from_text to_second (codes "2024-1-1  0:0:56.25")
    ≡ ok (record { seconds = pos 121496; microseconds = pos 250000 })
unfolding local_from_text matched_int matched_char matched_spaces matched_fraction digit_run
    magnitude
local_short = refl

local_zone : local_from_text to_second (codes "2024-01-01 00:00:56+00") ≡ throws runtime_error
unfolding local_from_text matched_int matched_char matched_spaces matched_fraction digit_run
    magnitude
local_zone = refl
