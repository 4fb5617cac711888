-- ===== src/Decimal.antt =====
-- `std::to_string` and the `std::stoi` family, as src/type_converter.h uses them. An integer of w
-- bits is its bit pattern; `half` is 2 ^ (w - 1), from where on it is negative.
pub mod RoundTrip
use qbm_pgsql.Prelude.{
  ℕ, zero, suc, ◌+◌, ◌-◌, ◌*◌, ◌/◌, ◌%◌, Bool, true, false, ◌&&◌, ◌||◌, List, [], ◌∷◌, ltb, leb,
  ◌==◌, if◌then◌else◌, Result, ok, throws, invalid_argument, out_of_range,
}

-- The decimal digits of a number in front of others, at most `fuel` of them.
unfoldable pub digits : ℕ → ℕ → List ℕ → List ℕ
digits zero n acc = acc
digits (suc fuel) n acc =
    let d = b'0' + n % 10 in
    let more = digits fuel (n / 10) (d ∷ acc) in if ltb n 10 then d ∷ acc else more

-- A number of 64 bits has at most 20 digits.
unfoldable pub decimal : ℕ → List ℕ
unfolding digits
decimal n = digits 20 n []

unfoldable pub to_string : ℕ → ℕ → List ℕ
unfolding decimal
to_string half v = if leb half v then b'-' ∷ decimal (half + half - v) else decimal v

abbrev pub is_space : ℕ → Bool
is_space c = c == 32 || (leb 9 c && leb c 13)

abbrev pub skip_space : List ℕ → List ℕ
skip_space [] = []
skip_space (c ∷ s) = if is_space c then skip_space s else c ∷ s

-- The sign, and what follows it.
abbrev pub sign : List ℕ → Bool × List ℕ
sign [] = (false, [])
sign (c ∷ s) = if c == b'-' then (true, s) else if c == b'+' then (false, s) else (false, c ∷ s)

-- Letters are the digits from ten on; 99 is no digit of any base.
abbrev pub digit_value : ℕ → ℕ
digit_value c =
    if leb b'0' c && leb c b'9'
    then c - b'0'
    else if leb b'a' c && leb c b'z'
    then c - b'a' + 10
    else if leb b'A' c && leb c b'Z'
    then c - b'A' + 10
    else 99

abbrev pub is_digit : ℕ → ℕ → Bool
is_digit base c = ltb (digit_value c) base

-- In base 16 a `0x` that a digit follows is skipped.
abbrev pub strip_prefix : ℕ → List ℕ → List ℕ
strip_prefix base [] = []
strip_prefix base (a ∷ []) = a ∷ []
strip_prefix base (a ∷ b ∷ []) = a ∷ b ∷ []
strip_prefix base (a ∷ b ∷ c ∷ s) =
    if base == 16 && (a == b'0' && ((b == b'x' || b == b'X') && is_digit base c))
    then c ∷ s
    else a ∷ b ∷ c ∷ s

-- The number that the digits in front spell; what follows them is not looked at.
unfoldable pub magnitude : ℕ → ℕ → List ℕ → ℕ
magnitude base acc [] = acc
magnitude base acc (c ∷ s) =
    if is_digit base c then magnitude base (acc * base + digit_value c) s else acc

abbrev pub starts_digit : ℕ → List ℕ → Bool
starts_digit base [] = false
starts_digit base (c ∷ s) = is_digit base c

unfoldable pub bounded : ℕ → Bool → ℕ → Result ℕ
bounded half negative m =
    if negative
    then (if ltb half m then throws out_of_range else ok ((half + half - m) % (half + half)))
    else if leb half m
    then throws out_of_range
    else ok m

unfoldable pub sto_signed : ℕ → ℕ → Bool × List ℕ → Result ℕ
unfolding magnitude bounded
sto_signed half base (negative, s) =
    let t = strip_prefix base s in
    if starts_digit base t
    then bounded half negative (magnitude base 0 t)
    else throws invalid_argument

-- `std::stoi` and `std::stoll` have `half` at 2 ^ 31 and 2 ^ 63.
unfoldable pub sto : ℕ → ℕ → List ℕ → Result ℕ
unfolding sto_signed
sto half base text = sto_signed half base (sign (skip_space text))
