-- ===== src/Login/ServerFirst.antt =====
-- The server's first message of SCRAM as pgsql.h reads it.
use qbm_pgsql.Prelude.{
  ℕ, ◌+◌, ◌<◌, ◌≤◌, ◌≡◌, ◌≢◌, refl, ap, ◌∙◌, Bool, true, false, some, List, [], ◌∷◌, ◌++◌, length,
  codes, ok, All, arith, append-nil, All-append,
}
use qbm_pgsql.Traits.{before_nul, from_nul, protocol_read, text_reader_string}
use qbm_pgsql.Message.{read_string}
use qbm_pgsql.Message.Reads.{NoNul}
use qbm_pgsql.Attributes.{parse, emplace}
use qbm_pgsql.Attributes.Entries.{emplace_all}
use qbm_pgsql.Attributes.RoundTrip.{
  IsName, IsValue, in_name, in_value, attributes, parse-emplace_all,
}
use qbm_pgsql.Decimal.{decimal, to_string, sto}
use qbm_pgsql.Decimal.RoundTrip.{
  Starts, to_string-below, decimal-Starts, decimal-All, length-decimal, sto-to_string,
  to_string-nonzero,
}
use qbm_pgsql.Login.Proof.{entry, server_first}

-- A text with no terminator is read to its end.
before_nul-NoNul : (s : List ℕ) → NoNul s → before_nul s ≡ s
before_nul-NoNul [] n = refl
before_nul-NoNul (c ∷ s) n = ground (arith, before_nul-NoNul s n.1)

from_nul-NoNul : (s : List ℕ) → NoNul s → from_nul s ≡ []
from_nul-NoNul [] n = refl
from_nul-NoNul (c ∷ s) n = ground (arith, from_nul-NoNul s n.1)

read_string_whole :
    (c : ℕ) (s : List ℕ) → NoNul (c ∷ s) → read_string (c ∷ s) ≡ ok (some (c ∷ s), [])
unfolding read_string protocol_read text_reader_string
read_string_whole c s n = ground (arith, before_nul-NoNul s n.1, from_nul-NoNul s n.1)

-- What is asked of the keys of the map: the three names are told apart.
pub record TellsApart (same : List ℕ → List ℕ → Bool) : Type 0 where
  pub r_r : same (codes "r") (codes "r") ≡ true
  pub s_s : same (codes "s") (codes "s") ≡ true
  pub i_i : same (codes "i") (codes "i") ≡ true
  pub r_s : same (codes "r") (codes "s") ≡ false
  pub r_i : same (codes "r") (codes "i") ≡ false
  pub s_i : same (codes "s") (codes "i") ≡ false

-- The iterations, as the server writes them.
abbrev pub iterations : ℕ → List ℕ
iterations n = to_string 2147483648 n

in_value-numeral : (d : ℕ) → d < 10 → in_value (b'0' + d) ≡ true
in_value-numeral d p = ground arith

IsValue-Starts :
    (s : List ℕ) → Starts s → All (λ c. in_value c ≡ true) s → length s ≤ 20 → IsValue s
IsValue-Starts [] h a l = tt
IsValue-Starts (c ∷ s) (d, t, e, lo, hi) a l =
    let same : c ≡ d = cc in (ground arith, a.1, omega arith)

IsValue-iterations : (n : ℕ) → n < 2147483648 → IsValue (iterations n)
IsValue-iterations n p = rw (to_string-below 2147483648 n p) (
    IsValue-Starts (decimal n) (decimal-Starts n)
      (decimal-All (λ c. in_value c ≡ true) in_value-numeral n) (length-decimal n))

module _ (same : List ℕ → List ℕ → Bool) (apart : TellsApart same) where
  server_first-attributes :
      (nonce salt : List ℕ) (n : ℕ)
      → server_first nonce salt n
        ≡ attributes same (codes "r") nonce ((codes "s", salt) ∷ (codes "i", iterations n) ∷ [])
  unfolding server_first
  server_first-attributes nonce salt n = rw (append-nil (iterations n)) refl

  pub entries :
      (nonce salt i : List ℕ)
      → let d =
          emplace_all same [] ((codes "r", nonce) ∷ (codes "s", salt) ∷ (codes "i", i) ∷ []) in
        (entry same d (codes "r") ≡ nonce)
        × (entry same d (codes "s") ≡ salt)
        × (entry same d (codes "i") ≡ i)
  unfolding emplace
  entries nonce salt i = (ground arith, ground arith, ground arith)

  pub parse-server_first :
      (nonce salt : List ℕ) (n : ℕ)
      → IsValue nonce
      → IsValue salt
      → n < 2147483648
      → parse same (server_first nonce salt n)
        ≡ ok (
            emplace_all same []
              ((codes "r", nonce) ∷ (codes "s", salt) ∷ (codes "i", iterations n) ∷ []))
  parse-server_first nonce salt n a b p =
      let letter : (c : ℕ) → in_name c ≡ true → IsName (c ∷ []) = λ c e. ((e, tt), omega arith) in
      ap (parse same) (server_first-attributes nonce salt n)
      ∙ parse-emplace_all same (codes "r") nonce
          ((codes "s", salt) ∷ (codes "i", iterations n) ∷ []) (letter b'r' refl) a
          (letter b's' refl, b, (letter b'i' refl, IsValue-iterations n p, tt))

NoNul-value : (s : List ℕ) → All (λ c. in_value c ≡ true) s → NoNul s
NoNul-value [] a = tt
NoNul-value (c ∷ s) a = (λ e. absurd (ground arith), NoNul-value s a.1)

IsValue-NoNul : (s : List ℕ) → IsValue s → NoNul s
IsValue-NoNul [] a = tt
IsValue-NoNul (c ∷ s) a = (λ e. absurd (ground arith), NoNul-value s a.1)

pub read_string-server_first :
    (nonce salt : List ℕ) (n : ℕ)
    → IsValue nonce
    → IsValue salt
    → read_string (server_first nonce salt n) ≡ ok (some (server_first nonce salt n), [])
unfolding server_first
read_string-server_first nonce salt n a b =
    read_string_whole b'r' _ (ne b'r' (omega arith), (ne b'=' (omega arith), after_nonce))
  where
    ne : (c : ℕ) → 0 < c → c ≢ 0
    ne c p e = absurd (omega arith)

    after_salt : NoNul (codes ",i=" ++ iterations n)
    after_salt = (
      ne b',' (omega arith),
      (ne b'i' (omega arith), (ne b'=' (omega arith), to_string-nonzero 2147483648 n)),
    )

    after_nonce : NoNul (nonce ++ (codes ",s=" ++ (salt ++ (codes ",i=" ++ iterations n))))
    after_nonce =
        All-append (λ c. c ≢ 0) nonce _ (IsValue-NoNul nonce a)
          (
            ne b',' (omega arith),
            (
              ne b's' (omega arith),
              (
                ne b'=' (omega arith),
                All-append (λ c. c ≢ 0) salt _ (IsValue-NoNul salt b) after_salt,
              ),
            ),
          )

pub sto-iterations : (n : ℕ) → n < 2147483648 → sto 2147483648 10 (iterations n) ≡ ok n
sto-iterations n p =
    sto-to_string 2147483648 2147483648 n (omega arith) (omega arith) (omega arith)
    ∙ ap ok (ground arith)
