-- ===== src/Convert/Floats.antt =====
-- `to_text` and `from_text` of src/type_converter.h for floating point numbers, as bit patterns.
use native.Mathlib.Nat.{mod-eq_of_lt, add-mod_right}
use qbm_pgsql.Prelude.{
  ℕ, ◌+◌, ◌%◌, ◌-◌, ◌<◌, ◌≤◌, ◌≡◌, refl, sym, ◌∙◌, ap, Bool, true, false, ◌||◌, ltb, ◌==◌,
  if◌then◌else◌, List, codes, bytes_eq, Result, ok, arith, Bool-cases, inl, inr,
}

-- The patterns of a type from `half` on are negative; behind that of infinity come those that are
-- no numbers.
pub record Format : Type 0 where
  pub half : ℕ
  pub infinity : ℕ
  pub quiet_nan : ℕ

abbrev pub float_format : Format
float_format = record { half = 2147483648; infinity = 2139095040; quiet_nan = 2143289344 }

abbrev pub double_format : Format
double_format = record {
  half = 9223372036854775808;
  infinity = 9218868437227405312;
  quiet_nan = 9221120237041090560;
}

abbrev pub is_nan : Format → ℕ → Bool
is_nan f v = ltb f.infinity (v % f.half)

abbrev pub is_inf : Format → ℕ → Bool
is_inf f v = v % f.half == f.infinity

abbrev pub is_infinity : List ℕ → Bool
is_infinity text = bytes_eq text (codes "Infinity") || bytes_eq text (codes "inf")

abbrev pub is_minus_infinity : List ℕ → Bool
is_minus_infinity text = bytes_eq text (codes "-Infinity") || bytes_eq text (codes "-inf")

abbrev pub is_word : List ℕ → Bool
is_word text = bytes_eq text (codes "NaN") || (is_infinity text || is_minus_infinity text)

-- `std::to_string`, and `std::stof` or `std::strtod`, of the C++ library. The text of a finite
-- number is made of digits, a point and a sign.
pub record Printer (f : Format) : Type 0 where
  pub to_string : ℕ → List ℕ
  pub scan : List ℕ → Result ℕ
  pub to_string-word :
      (v : ℕ) → is_nan f v ≡ false → is_inf f v ≡ false → is_word (to_string v) ≡ false

unfoldable pub float_to_text : (f : Format) → Printer f → ℕ → List ℕ
float_to_text f p v =
    if is_nan f v
    then codes "NaN"
    else if is_inf f v
    then (if ltb v f.half then codes "Infinity" else codes "-Infinity")
    else p.to_string v

unfoldable pub float_from_text : (f : Format) → Printer f → List ℕ → Result ℕ
float_from_text f p text =
    if bytes_eq text (codes "NaN")
    then ok f.quiet_nan
    else if is_infinity text
    then ok f.infinity
    else if is_minus_infinity text
    then ok (f.half + f.infinity)
    else p.scan text

from_text-scan :
    (f : Format) (p : Printer f) (text : List ℕ)
    → is_word text ≡ false
    → float_from_text f p text ≡ p.scan text
unfolding float_from_text
from_text-scan f p text e = ground (arith, e)

-- The two patterns of an infinity.
inf-positive : (f : Format) (v : ℕ) → is_inf f v ≡ true → ltb v f.half ≡ true → f.infinity ≡ v
inf-positive f v i s =
    let e = mod-eq_of_lt (below v f.half s) in
    let i' : v % f.half ≡ f.infinity = ground (arith, i) in omega (arith, e, i')
  where
    below : (a b : ℕ) → ltb a b ≡ true → a < b
    below a b s = ground (arith, s)

shift : (v half : ℕ) → half ≤ v → v < half + half → v % half ≡ v - half
shift v half a b =
    let e : v - half + half ≡ v = omega arith in
    ap (λ x. x % half) (sym e) ∙ add-mod_right (v - half) half ∙ mod-eq_of_lt (small a b)
  where
    small : half ≤ v → v < half + half → v - half < half
    small a b = omega arith

inf-negative :
    (f : Format) (v : ℕ)
    → is_inf f v ≡ true
    → ltb v f.half ≡ false
    → v < f.half + f.half
    → f.half + f.infinity ≡ v
inf-negative f v i s b =
    let low : f.half ≤ v = ground (arith, s) in
    let i' : v % f.half ≡ f.infinity = ground (arith, i) in
    omega (arith, low, i', shift v f.half low b)

-- What is no number is read as the quiet pattern, an infinity as itself, and a finite number as
-- the library reads what it printed.
pub float_from_text-float_to_text :
    (f : Format) (p : Printer f) (v : ℕ)
    → v < f.half + f.half
    → float_from_text f p (float_to_text f p v)
      ≡ (if is_nan f v then ok f.quiet_nan else if is_inf f v then ok v else p.scan (p.to_string v))
unfolding float_to_text float_from_text
float_from_text-float_to_text f p v b = elim (Bool-cases (is_nan f v)) [
  | inl n ↦ rw n refl
  | inr n ↦ elim (Bool-cases (is_inf f v)) [
    | inl i ↦ elim (Bool-cases (ltb v f.half)) [
      | inl s ↦ rw (n, i, s) (ap ok (inf-positive f v i s))
      | inr s ↦ rw (n, i, s) (ap ok (inf-negative f v i s b))
    ]
    | inr i ↦ rw (n, i) (from_text-scan f p (p.to_string v) (p.to_string-word v n i))
  ]
]
