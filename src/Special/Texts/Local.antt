-- ===== src/Special/Texts/Local.antt =====
-- `to_text` and `from_text` of src/type_converter.h as they are for a timestamp of local time.
pub mod RoundTrip
use qbm_pgsql.Prelude.{
  ℕ, zero, suc, ◌+◌, ◌-◌, ◌==◌, Bool, true, false, ◌&&◌, leb, if◌then◌else◌, List, [], ◌∷◌, ◌++◌,
  length, null, Result, ok, throws, runtime_error, ◌>>=◌,
}
use qbm_pgsql.Prelude.Int.{ℤ, pos}
use qbm_pgsql.Decimal.{magnitude, is_space, skip_space}
use qbm_pgsql.Special.{Timestamp}
use qbm_pgsql.Special.Texts.{Tm, Calendar, year_text, digit_run}

abbrev pub zeros : ℕ → List ℕ
zeros zero = []
zeros (suc n) = b'0' ∷ zeros n

-- A number printed with `std::setw(width)`, filled with zeros.
unfoldable pub filled : ℕ → ℤ → List ℕ
filled width a = zeros (width - length (year_text a)) ++ year_text a

-- `gmtime` gives the universal time; the fraction is always printed.
unfoldable pub local_to_text : Calendar → Timestamp → List ℕ
local_to_text cal t =
    let c = cal.gmtime t.seconds in
    filled 4 c.year
    ++ b'-'
      ∷ (filled 2 c.month
          ++ b'-'
            ∷ (filled 2 c.day
                ++ b' '
                  ∷ (filled 2 c.hour
                      ++ b':'
                        ∷ (filled 2 c.minute
                            ++ b':' ∷ (filled 2 c.second ++ b'.' ∷ filled 6 t.microseconds)))))

-- `\d{lo,hi}` in front of what is no digit, and `std::stoi` of it.
unfoldable pub matched_int : ℕ → ℕ → List ℕ → Result (ℕ × List ℕ)
unfolding digit_run magnitude
matched_int lo hi s =
    let (run, rest) = digit_run s in
    if leb lo (length run) && leb (length run) hi
    then ok (magnitude 10 0 run, rest)
    else throws runtime_error

unfoldable pub matched_char : ℕ → List ℕ → Result (List ℕ)
matched_char c [] = throws runtime_error
matched_char c (d ∷ s) = if d == c then ok s else throws runtime_error

-- `\s+`
unfoldable pub matched_spaces : List ℕ → Result (List ℕ)
matched_spaces [] = throws runtime_error
matched_spaces (c ∷ s) = if is_space c then ok (skip_space s) else throws runtime_error

-- `(?:\.(\d{1,6}))?` up to the end, with the digits filled up to six.
unfoldable pub matched_fraction : List ℕ → Result ℕ
unfolding digit_run magnitude
matched_fraction [] = ok 0
matched_fraction (c ∷ s) =
    let (run, rest) = digit_run s in
    if (c == b'.') && (leb 1 (length run) && (leb (length run) 6 && null rest))
    then ok (magnitude 10 0 (run ++ zeros (6 - length run)))
    else throws runtime_error

-- The match of the regular expression; `mktime` takes the numbers for local time, and its failure
-- is not looked at.
unfoldable pub local_from_text : (Tm → ℤ) → List ℕ → Result Timestamp
local_from_text mktime text = do
  (year, a) ← matched_int 4 4 text
  b ← matched_char b'-' a
  (month, c) ← matched_int 1 2 b
  d ← matched_char b'-' c
  (day, e) ← matched_int 1 2 d
  f ← matched_spaces e
  (hour, g) ← matched_int 1 2 f
  i ← matched_char b':' g
  (minute, j) ← matched_int 1 2 i
  k ← matched_char b':' j
  (second, l) ← matched_int 1 2 k
  microsecond ← matched_fraction l
  ok (record {
    seconds = mktime (record {
      year = pos year;
      month = pos month;
      day = pos day;
      hour = pos hour;
      minute = pos minute;
      second = pos second;
    });
    microseconds = pos microsecond;
  })
