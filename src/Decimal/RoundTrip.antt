-- ===== src/Decimal/RoundTrip.antt =====
-- A printed integer is read back.
use native.Mathlib.Nat.{pow-suc, mod-eq_of_lt}
use qbm_pgsql.Prelude.{
  ℕ, zero, suc, ◌+◌, ◌-◌, ◌*◌, ◌/◌, ◌%◌, ◌^◌, ◌≤◌, ◌<◌, ◌≡◌, ◌≢◌, refl, ◌∙◌, ap, Bool, true, false,
  List, [], ◌∷◌, length, ltb, leb, if◌then◌else◌, ok, arith, Bool-cases, le→ltb, inl, inr, All,
}
use qbm_pgsql.Decimal.{
  digits, decimal, to_string, magnitude, bounded, sto, sto_signed, sign, skip_space, strip_prefix,
  starts_digit,
}

pub magnitude_digit :
    (n d : ℕ) (s : List ℕ) → d < 10 → magnitude 10 n ((b'0' + d) ∷ s) ≡ magnitude 10 (n * 10 + d) s
unfolding magnitude
magnitude_digit n d s h = ground arith

magnitude-digits :
    (f n : ℕ) (s : List ℕ) → n < 10 ^ f → magnitude 10 0 (digits f n s) ≡ magnitude 10 n s
unfolding digits
magnitude-digits zero n s h = let e : 0 ≡ n = omega arith in ap (λ m. magnitude 10 m s) e
magnitude-digits (suc f) n s h = elim (Bool-cases (ltb n 10)) [
  | inl e ↦
      rw e (magnitude_digit 0 (n % 10) s (omega arith) ∙ ap (λ m. magnitude 10 m s) (ground arith))
  | inr e ↦ rw e (
      magnitude-digits f (n / 10) ((b'0' + n % 10) ∷ s) (omega (arith, pow-suc 10 f))
      ∙ magnitude_digit (n / 10) (n % 10) s (omega arith)
      ∙ ap (λ m. magnitude 10 m s) (omega arith))
]

-- A text that starts with a digit, behind which `digits` puts more.
abbrev pub Starts : List ℕ → Type 0
Starts s = (c : ℕ) × (t : List ℕ) × (s ≡ c ∷ t) × (b'0' ≤ c) × (c ≤ b'9')

digits-Starts : (f n : ℕ) (s : List ℕ) → Starts s → Starts (digits f n s)
unfolding digits
digits-Starts zero n s h = h
digits-Starts (suc f) n s h =
    let front : Starts ((b'0' + n % 10) ∷ s) = (b'0' + n % 10, s, refl, omega arith, omega arith) in
    let more = digits-Starts f (n / 10) ((b'0' + n % 10) ∷ s) front in
    elim (Bool-cases (ltb n 10)) [ inl e ↦ rw e front | inr e ↦ rw e more ]

pub decimal-Starts : (n : ℕ) → Starts (decimal n)
unfolding decimal
decimal-Starts n =
    let front : Starts ((b'0' + n % 10) ∷ []) =
      (b'0' + n % 10, [], refl, omega arith, omega arith) in
    elim (Bool-cases (ltb n 10)) [
      | inl e ↦ rw e front
      | inr e ↦ rw e (digits-Starts 19 (n / 10) ((b'0' + n % 10) ∷ []) front)
    ]

pub strip_prefix-decimal : (s : List ℕ) → strip_prefix 10 s ≡ s
strip_prefix-decimal [] = refl
strip_prefix-decimal (a ∷ []) = refl
strip_prefix-decimal (a ∷ b ∷ []) = refl
strip_prefix-decimal (a ∷ b ∷ c ∷ s) = refl

starts_digit-Starts : (s : List ℕ) → Starts s → starts_digit 10 s ≡ true
starts_digit-Starts s (c, t, e, lo, hi) = rw e (ground arith)

pub magnitude-decimal : (n : ℕ) → n < 10 ^ 20 → magnitude 10 0 (decimal n) ≡ n
unfolding decimal magnitude
magnitude-decimal n h = magnitude-digits 20 n [] h

sto_signed-decimal :
    (half n : ℕ) (negative : Bool)
    → n < 10 ^ 20
    → sto_signed half 10 (negative, decimal n) ≡ bounded half negative n
unfolding sto_signed
sto_signed-decimal half n negative h = rw (
  strip_prefix-decimal (decimal n),
  starts_digit-Starts (decimal n) (decimal-Starts n),
  magnitude-decimal n h,
)

unsigned : (s : List ℕ) → Starts s → sign (skip_space s) ≡ (false, s)
unsigned s (c, t, e, lo, hi) = rw e (ground arith)

-- The bit pattern of a printed integer in a wider type.
abbrev pub extend : ℕ → ℕ → ℕ → ℕ
extend half wide v = if leb half v then wide + wide - (half + half - v) else v

-- A printed integer of either sign is read in any type of 64 bits at most that is as wide.
pub sto-to_string :
    (half wide v : ℕ)
    → half ≤ wide
    → wide ≤ 2 ^ 63
    → v < half + half
    → sto wide 10 (to_string half v) ≡ ok (extend half wide v)
unfolding sto to_string bounded
sto-to_string half wide v o p q = elim (Bool-cases (leb half v)) [
  | inl e ↦ rw (
    e,
    sto_signed-decimal wide (half + half - v) true (omega arith),
    le→ltb wide (half + half - v) (ground arith),
    mod-eq_of_lt (fits q (lower e)),
  )
  | inr e ↦
      rw (e, unsigned (decimal v) (decimal-Starts v), sto_signed-decimal wide v false (omega arith))
        (ground arith)
]
  where
    lower : leb half v ≡ true → half ≤ v
    lower e = ground arith

    fits : v < half + half → half ≤ v → wide + wide - (half + half - v) < wide + wide
    fits a b = omega arith

-- What holds of the numerals holds of the characters of a printed number.
pub digits-All :
    (P : ℕ → Type 0)
    → ((d : ℕ) → d < 10 → P (b'0' + d))
    → (f n : ℕ) (s : List ℕ) → All P s
    → All P (digits f n s)
unfolding digits
digits-All P p zero n s h = h
digits-All P p (suc f) n s h =
    let front : All P ((b'0' + n % 10) ∷ s) = (p (n % 10) (omega arith), h) in
    let more = digits-All P p f (n / 10) ((b'0' + n % 10) ∷ s) front in
    elim (Bool-cases (ltb n 10)) [ inl e ↦ rw e front | inr e ↦ rw e more ]

pub decimal-All : (P : ℕ → Type 0) → ((d : ℕ) → d < 10 → P (b'0' + d)) → (n : ℕ) → All P (decimal n)
unfolding decimal
decimal-All P p n = digits-All P p 20 n [] tt

pub to_string-nonzero : (half v : ℕ) → All (λ c. c ≢ 0) (to_string half v)
unfolding to_string
to_string-nonzero half v = elim (Bool-cases (leb half v)) [
  | inl e ↦ rw e ((λ z. absurd (omega arith), decimal-All (λ c. c ≢ 0) nonzero (half + half - v)))
  | inr e ↦ rw e (decimal-All (λ c. c ≢ 0) nonzero v)
]
  where
    nonzero : (d : ℕ) → d < 10 → b'0' + d ≢ 0
    nonzero d p e = absurd (omega arith)

length-digits : (f n : ℕ) (s : List ℕ) → length (digits f n s) ≤ f + length s
unfolding digits
length-digits zero n s = omega arith
length-digits (suc f) n s =
    let more = length-digits f (n / 10) ((b'0' + n % 10) ∷ s) in
    elim (Bool-cases (ltb n 10)) [ inl e ↦ rw e (omega arith) | inr e ↦ rw e (omega (arith, more)) ]

pub length-decimal : (n : ℕ) → length (decimal n) ≤ 20
unfolding decimal
length-decimal n = omega (arith, length-digits 20 n [])

pub to_string-below : (half v : ℕ) → v < half → to_string half v ≡ decimal v
unfolding to_string
to_string-below half v p = let positive : leb half v ≡ false = ground arith in rw positive refl
