-- ===== src/Special/Texts/Plain.antt =====
-- `from_text` of the timestamps without a time zone of src/type_converter.h.
use qbm_pgsql.Prelude.{
  ℕ, ◌-◌, ◌*◌, ◌^◌, ◌<◌, ◌≡◌, refl, true, if◌then◌else◌, List, ◌∷◌, ◌++◌, length, null, Result, ok,
  throws, undefined, runtime_error, ◌>>=◌, arith,
}
use qbm_pgsql.Prelude.Int.{ℤ}
use qbm_pgsql.Decimal.{sto}
use qbm_pgsql.Special.{Timestamp}
use qbm_pgsql.Special.Texts.{Tm, Within, clock, scan_time, after_dot, tm_fits, seconds_or_failure}
use qbm_pgsql.Special.Texts.Scans.{no_digit, Spells, sto-append}
use qbm_pgsql.Special.Texts.Clocks.{scan_time-clock}
use qbm_pgsql.Special.Texts.RoundTrip.{null-append, null-clock, after_dot-clock, tm_fits-Within}

-- All that is behind the dot counts as digits.
unfoldable pub plain_fraction : List ℕ → Result ℕ
plain_fraction text = if null (after_dot text) then ok 0 else (do
  usec ← sto 2147483648 10 (after_dot text)
  ok (usec * 10 ^ (6 - length (after_dot text))))

-- `mktime` depends on the time zone of the host.
unfoldable pub plain_from_text : (Tm → ℤ) → List ℕ → Result Timestamp
plain_from_text mktime text = if null text then throws runtime_error else (do
  tm ← scan_time text
  usec ← plain_fraction text
  if tm_fits tm then seconds_or_failure (mktime tm) usec else undefined)

plain_fraction-dotted :
    (text w rest : List ℕ) (v : ℕ)
    → after_dot text ≡ w ++ rest
    → Spells w v
    → no_digit rest ≡ true
    → v < 2147483648
    → plain_fraction text ≡ ok (v * 10 ^ (6 - length (w ++ rest)))
unfolding plain_fraction
plain_fraction-dotted text w rest v e (n, m) q r =
    rw (e, null-append w rest n, sto-append w rest n q (omega (arith, m, r)), m) refl

-- A suffix behind the digits of the fraction, such as a zone, scales the fraction down: each of its
-- characters counts as a digit.
pub plain_from_text-suffix :
    (mktime : Tm → ℤ) (tm : Tm) (w suffix : List ℕ) (v : ℕ)
    → Within 2147483647 tm.year
    → Within 12 tm.month
      × Within 31 tm.day
      × Within 23 tm.hour
      × Within 59 tm.minute
      × Within 60 tm.second
    → Spells w v
    → v < 2147483648
    → no_digit suffix ≡ true
    → plain_from_text mktime (clock tm (b'.' ∷ w ++ suffix))
      ≡ seconds_or_failure (mktime tm) (v * 10 ^ (6 - length (w ++ suffix)))
unfolding plain_from_text
plain_from_text-suffix mktime tm w suffix v year within spells r q =
    let text = clock tm (b'.' ∷ w ++ suffix) in
    rw
      (
        null-clock tm (b'.' ∷ w ++ suffix),
        scan_time-clock tm (b'.' ∷ w ++ suffix) year within refl,
        plain_fraction-dotted text w suffix v (after_dot-clock tm (b'.' ∷ w ++ suffix) year) spells
            q r,
        tm_fits-Within tm year within.0,
      )
      refl
