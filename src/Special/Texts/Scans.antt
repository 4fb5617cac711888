-- ===== src/Special/Texts/Scans.antt =====
-- What `sscanf` and `std::stoi` read of numerals, as src/type_converter.h uses them.
use native.Mathlib.Nat.{pow-suc}
use qbm_pgsql.Prelude.{
  ℕ, zero, suc, ◌+◌, ◌/◌, ◌%◌, ◌^◌, ◌<◌, ◌≡◌, refl, ap, ◌∙◌, Bool, true, false, ◌&&◌, not, ◌*◌,
  if◌then◌else◌, List, subst, append-nil, [], ◌∷◌, ◌++◌, leb, length, null, ok, arith, All,
}
use qbm_pgsql.Prelude.Int.{pos}
use qbm_pgsql.Decimal.{
  decimal, magnitude, is_digit, skip_space, sign, sto, sto_signed, bounded, starts_digit,
  digit_value,
}
use qbm_pgsql.Decimal.RoundTrip.{
  magnitude_digit, magnitude-decimal, strip_prefix-decimal, decimal-All, decimal-Starts,
}
use qbm_pgsql.Special.Texts.{padded, digit_run, scan_int}

abbrev pub all_digits : List ℕ → Bool
all_digits [] = true
all_digits (c ∷ s) = is_digit 10 c && all_digits s

-- A text that starts with no digit.
abbrev pub no_digit : List ℕ → Bool
no_digit [] = true
no_digit (c ∷ s) = not (is_digit 10 c)

abbrev pub numeral : List ℕ → Bool
numeral s = not (null s) && all_digits s

pub digit_run-append :
    (w rest : List ℕ)
    → all_digits w ≡ true
    → no_digit rest ≡ true
    → digit_run (w ++ rest) ≡ (w, rest)
unfolding digit_run
digit_run-append [] [] p q = refl
digit_run-append [] (c ∷ rest) p q =
    let other : is_digit 10 c ≡ false = ground arith in rw other refl
digit_run-append (c ∷ w) rest p q =
    let digit : is_digit 10 c ≡ true = ground arith in
    rw (digit, digit_run-append w rest (ground arith) q) refl

pub numeral-all_digits : (w : List ℕ) → numeral w ≡ true → all_digits w ≡ true
numeral-all_digits [] p = refl
numeral-all_digits (c ∷ w) p = p

digit-front :
    (c : ℕ) (s : List ℕ)
    → is_digit 10 c ≡ true
    → (skip_space (c ∷ s) ≡ c ∷ s) × (sign (c ∷ s) ≡ (false, c ∷ s))
digit-front c s p = (ground (arith, p), ground (arith, p))

pub scan_int-append :
    (w rest : List ℕ)
    → numeral w ≡ true
    → no_digit rest ≡ true
    → magnitude 10 0 w < 2147483648
    → scan_int (w ++ rest) ≡ ok (pos (magnitude 10 0 w), rest)
unfolding scan_int
scan_int-append [] rest p q r = let x : ⊥ = ground arith in absurd x
scan_int-append (c ∷ w) rest p q r =
    let digit : is_digit 10 c ≡ true = ground arith in
    let digits : all_digits (c ∷ w) ≡ true = ground arith in
    let (spaces, signs) = digit-front c (w ++ rest) digit in
    let small : leb 2147483648 (magnitude 10 0 (c ∷ w)) ≡ false = ground (arith, r) in
    rw (spaces, signs, digit_run-append (c ∷ w) rest digits q, small) refl

bounded-small : (m : ℕ) → m < 2147483648 → bounded 2147483648 false m ≡ ok m
unfolding bounded
bounded-small m p = ground (arith, p)

sto_signed-numeral :
    (w : List ℕ)
    → starts_digit 10 w ≡ true
    → sto_signed 2147483648 10 (false, w) ≡ bounded 2147483648 false (magnitude 10 0 w)
unfolding sto_signed
sto_signed-numeral w p = rw (strip_prefix-decimal w, p) refl

starts_digit-front : (c : ℕ) (w : List ℕ) → is_digit 10 c ≡ true → starts_digit 10 (c ∷ w) ≡ true
starts_digit-front c w p = p

magnitude-append :
    (m : ℕ) (w rest : List ℕ) → no_digit rest ≡ true → magnitude 10 m (w ++ rest) ≡ magnitude 10 m w
unfolding magnitude
magnitude-append m [] [] q = refl
magnitude-append m [] (c ∷ rest) q =
    let other : is_digit 10 c ≡ false = ground arith in rw other refl
magnitude-append m (c ∷ w) rest q =
    ap (λ n. if is_digit 10 c then n else m) (magnitude-append (m * 10 + digit_value c) w rest q)

-- What follows the digits has no effect.
pub sto-append :
    (w rest : List ℕ)
    → numeral w ≡ true
    → no_digit rest ≡ true
    → magnitude 10 0 w < 2147483648
    → sto 2147483648 10 (w ++ rest) ≡ ok (magnitude 10 0 w)
unfolding sto
sto-append [] rest p q r = let x : ⊥ = ground arith in absurd x
sto-append (c ∷ w) rest p q r =
    let digit : is_digit 10 c ≡ true = ground arith in
    let (spaces, signs) = digit-front c (w ++ rest) digit in
    rw (spaces, signs)
      (sto_signed-numeral (c ∷ w ++ rest) (starts_digit-front c (w ++ rest) digit)
        ∙ ap (bounded 2147483648 false) (magnitude-append 0 (c ∷ w) rest q)
        ∙ bounded-small (magnitude 10 0 (c ∷ w)) r)

pub sto-numeral :
    (w : List ℕ)
    → numeral w ≡ true
    → magnitude 10 0 w < 2147483648
    → sto 2147483648 10 w ≡ ok (magnitude 10 0 w)
sto-numeral w p r =
    subst (λ s. sto 2147483648 10 s ≡ ok (magnitude 10 0 w)) (append-nil w)
      (sto-append w [] p refl r)

-- Numerals of a fixed width.
digit-is_digit : (d : ℕ) → d < 10 → is_digit 10 (b'0' + d) ≡ true
digit-is_digit d p = ground arith

all_digits-padded : (n v : ℕ) (s : List ℕ) → all_digits s ≡ true → all_digits (padded n v s) ≡ true
unfolding padded
all_digits-padded zero v s p = p
all_digits-padded (suc n) v s p =
    all_digits-padded n (v / 10) ((b'0' + v % 10) ∷ s)
      (rw (digit-is_digit (v % 10) (omega arith), p) refl)

pub length-padded : (n v : ℕ) (s : List ℕ) → length (padded n v s) ≡ n + length s
unfolding padded
length-padded zero v s = omega arith
length-padded (suc n) v s = omega (arith, length-padded n (v / 10) ((b'0' + v % 10) ∷ s))

magnitude-padded_onto :
    (n v : ℕ) (s : List ℕ) → v < 10 ^ n → magnitude 10 0 (padded n v s) ≡ magnitude 10 v s
unfolding padded
magnitude-padded_onto zero v s p = let e : 0 ≡ v = omega arith in ap (λ m. magnitude 10 m s) e
magnitude-padded_onto (suc n) v s p =
    magnitude-padded_onto n (v / 10) ((b'0' + v % 10) ∷ s) (omega (arith, pow-suc 10 n))
    ∙ magnitude_digit (v / 10) (v % 10) s (omega arith)
    ∙ ap (λ m. magnitude 10 m s) (omega arith)

pub padded-append : (n v : ℕ) (s t : List ℕ) → padded n v (s ++ t) ≡ padded n v s ++ t
unfolding padded
padded-append zero v s t = refl
padded-append (suc n) v s t = padded-append n (v / 10) ((b'0' + v % 10) ∷ s) t

-- A text that is a numeral, with its value.
abbrev pub Spells : List ℕ → ℕ → Type 0
Spells w v = (numeral w ≡ true) × (magnitude 10 0 w ≡ v)

pub padded-Spells : (n v : ℕ) → v < 10 ^ suc n → Spells (padded (suc n) v []) v
unfolding magnitude
padded-Spells n v p =
    let long = length-padded (suc n) v [] in
    let digits = all_digits-padded (suc n) v [] refl in
    (
      long_numeral (padded (suc n) v []) digits (omega (arith, long)),
      magnitude-padded_onto (suc n) v [] p,
    )
  where
    long_numeral : (w : List ℕ) → all_digits w ≡ true → 0 < length w → numeral w ≡ true
    long_numeral [] d l = absurd (omega (arith, l))
    long_numeral (c ∷ w) d l = d

all_digits-All : (s : List ℕ) → All (λ c. is_digit 10 c ≡ true) s → all_digits s ≡ true
all_digits-All [] h = refl
all_digits-All (c ∷ s) h = rw (h.0, all_digits-All s h.1)

pub decimal-Spells : (n : ℕ) → n < 10 ^ 20 → Spells (decimal n) n
decimal-Spells n p =
    let (c, t, e, lo, hi) = decimal-Starts n in
    let digits =
      all_digits-All (decimal n) (decimal-All (λ c. is_digit 10 c ≡ true) digit-is_digit n) in
    (rw (digits, e) refl, magnitude-decimal n p)

pub scan_int-Spells :
    (w rest : List ℕ) (v : ℕ)
    → Spells w v
    → no_digit rest ≡ true
    → v < 2147483648
    → scan_int (w ++ rest) ≡ ok (pos v, rest)
scan_int-Spells w rest v (n, m) q r =
    scan_int-append w rest n q (omega (arith, m, r)) ∙ ap (λ k. ok (pos k, rest)) m
