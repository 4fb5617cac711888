-- ===== src/Framing/Step.antt =====
-- One call of `getMessageSize` on the bytes that have come so far.
use qbm_pgsql.Prelude.{
  ℕ, zero, suc, ◌+◌, ◌-◌, ◌≤◌, ◌<◌, ◌≡◌, ap, ◌∙◌, ◌⊎◌, inl, inr, false, some, List, [], ◌∷◌, ◌++◌,
  ltb, leb, if◌then◌else◌, length, take, ok, arith, length-append, take-append, drop-append,
  append_assoc, append-nil, le→ltb,
}
use Prim.Native.Nat.{min}
use qbm_pgsql.Wire.{Host, big_endian}
use qbm_pgsql.Wire.Laws.{length-big_endian, from_network-big_endian}
use qbm_pgsql.Message.{Message, incoming, append, message_length, size, buffer_size}
use qbm_pgsql.Framing.{Protocol, fresh, sub64, copy_from, read_body, get_message_size}

-- The tag and the length field of a message with a body of `b` bytes.
unfoldable pub header : ℕ → ℕ → List ℕ
header t b = t ∷ big_endian 4 (4 + b)

abbrev pub holding : List ℕ → Message
holding p = record { payload = p; unread = []; packed = false }

-- The state of a protocol that has taken over `got` of the body.
abbrev pub after : List ℕ → List ℕ → Protocol
after hd got = record { current = some (holding (hd ++ got)); offset = 5 + length got }

pub length-header : (t b : ℕ) → length (header t b) ≡ 5
unfolding header
length-header t b = omega (arith, length-big_endian 4 (4 + b))

take-min : (n : ℕ) (xs : List ℕ) → take (min n (length xs)) xs ≡ take n xs
take-min zero xs = ground arith
take-min (suc n) [] = ground arith
take-min (suc n) (x ∷ xs) =
    let e : min (suc n) (suc (length xs)) ≡ suc (min n (length xs)) = omega arith in
    rw e (ap (◌∷◌ x) (take-min n xs))

take_more :
    (b : ℕ) (xs ys : List ℕ)
    → length xs ≤ b
    → xs ++ take (min (b - length xs) (length ys)) ys ≡ take b (xs ++ ys)
take_more b [] ys h = let e : b - 0 ≡ b = omega arith in rw e (take-min b ys)
take_more zero (x ∷ xs) ys h = absurd (omega arith)
take_more (suc b) (x ∷ xs) ys h =
    let e : suc b - suc (length xs) ≡ b - length xs = omega arith in
    rw e (ap (◌∷◌ x) (take_more b xs ys (omega arith)))

length-behind : (hd s : List ℕ) → length hd ≡ 5 → length (hd ++ s) ≡ 5 + length s
length-behind hd s e = omega (arith, length-append hd s)

length-take-min : (n : ℕ) (xs : List ℕ) → length (take n xs) ≡ min n (length xs)
length-take-min zero xs = omega arith
length-take-min (suc n) [] = omega arith
length-take-min (suc n) (x ∷ xs) = omega (arith, length-take-min n xs)

sub64_fits : (a b d : ℕ) → a ≡ b + d → a < 9223372036854775808 → sub64 a b ≡ d
unfolding sub64
sub64_fits a b d e p = omega arith

to_copy_eq :
    (b g t : ℕ)
    → g ≤ b
    → b < 4294967292
    → (if ltb (4 + g) (4 + b) then min (sub64 (4 + b) (4 + g)) t else 0) ≡ min (b - g) t
unfolding sub64
to_copy_eq b g t p q = ground arith

copy_from-append :
    (pre tail : List ℕ) (n k : ℕ)
    → length pre ≡ n
    → k ≤ length tail
    → copy_from (pre ++ tail) n k ≡ ok (take k tail)
unfolding copy_from
copy_from-append pre tail n k e p = ground (arith, length-append pre tail, drop-append n pre tail e)

module _ ⦃h : Host⦄ where
  pub message_length-header :
      (t b : ℕ) (got : List ℕ)
      → 4 + b < 4294967296
      → message_length (holding (header t b ++ got)) ≡ 4 + b
  unfolding message_length header
  message_length-header t b got p = ground (
    arith,
    length-append (big_endian 4 (4 + b)) got,
    length-big_endian 4 (4 + b),
    take-append 4 (big_endian 4 (4 + b)) got (length-big_endian 4 (4 + b)),
    from_network-big_endian 4 (4 + b),
  )

  size-holding : (t b : ℕ) (got : List ℕ) → size (holding (header t b ++ got)) ≡ 4 + length got
  unfolding size header
  size-holding t b got =
      omega (arith, length-append (big_endian 4 (4 + b)) got, length-big_endian 4 (4 + b))

  -- The size that a call reports once `avail` has come of the body.
  abbrev pub reported : ℕ → List ℕ → ℕ
  reported b avail = if leb b (length avail) then 5 + b else 0

  read_body-header :
      (t b : ℕ) (got tail : List ℕ)
      → length got ≤ b
      → b < 4294967292
      → read_body
          (holding (header t b ++ got))
          (5 + length got)
          (header t b ++ (got ++ tail))
          (length tail)
        ≡ ok (reported b (got ++ tail), after (header t b) (take b (got ++ tail)))
  unfolding read_body append buffer_size
  read_body-header t b got tail p q =
      let hd = header t b in
      let g = length got in
      let k = min (b - g) (length tail) in
      let full = take b (got ++ tail) in
      let copied : copy_from (hd ++ (got ++ tail)) (5 + g) k ≡ ok (take k tail) =
        rw (← append_assoc hd got tail) (
          copy_from-append (hd ++ got) tail (5 + g) k
            (omega (arith, length-append hd got, length-header t b)) (omega arith)) in
      let joined : (hd ++ got) ++ take k tail ≡ hd ++ full =
        append_assoc hd got (take k tail) ∙ ap (◌++◌ hd) (take_more b got tail p) in
      rw
        (
          message_length-header t b got (omega arith),
          size-holding t b got,
          to_copy_eq b g (length tail) p q,
          copied,
          joined,
          message_length-header t b full (omega arith),
          size-holding t b full,
        )
        (ground (
          arith,
          length-take-min b (got ++ tail),
          length-append got tail,
          length-append hd full,
          length-header t b,
        ))

  -- The states between two calls while a message with a body of `b` bytes comes in: nothing taken
  -- yet, or the header and the bytes `avail` of the body.
  abbrev pub Waits : ℕ → ℕ → List ℕ → Protocol → Type 0
  Waits t b avail p = (p ≡ fresh) ⊎ ((length avail ≤ b) × (p ≡ after (header t b) avail))

  get_message_size-fresh :
      (t b : ℕ) (avail : List ℕ)
      → b < 4294967292
      → length (header t b ++ avail) < 9223372036854775808
      → get_message_size fresh (header t b ++ avail)
        ≡ ok (reported b avail, after (header t b) (take b avail))
  unfolding get_message_size append incoming header
  get_message_size-fresh t b avail q r =
      let hd = header t b in
      let n = length-behind hd avail (length-header t b) in
      rw
        (
          le→ltb (length (hd ++ avail)) 5 (omega arith),
          take-append 5 hd avail (length-header t b),
          sub64_fits (length (hd ++ avail)) 0 (length (hd ++ avail)) (omega arith) r,
          sub64_fits (length (hd ++ avail)) 5 (length avail) (omega arith) r,
        )
        (rw append-nil at (read_body-header t b [] avail (omega arith) q))

  get_message_size-after :
      (t b : ℕ) (got tail : List ℕ)
      → length got ≤ b
      → b < 4294967292
      → length (header t b ++ (got ++ tail)) < 9223372036854775808
      → get_message_size (after (header t b) got) (header t b ++ (got ++ tail))
        ≡ ok (reported b (got ++ tail), after (header t b) (take b (got ++ tail)))
  unfolding get_message_size
  get_message_size-after t b got tail le q r =
      let input = header t b ++ (got ++ tail) in
      let n = length-behind (header t b) (got ++ tail) (length-header t b) in
      rw
        (
          le→ltb (length input) 5 (omega arith),
          sub64_fits (length input) (5 + length got) (length tail)
              (omega (arith, length-append got tail)) r,
        )
        (read_body-header t b got tail le q)

  -- A call that sees the header and `got ++ tail` of the body, `got` being taken over by an earlier
  -- call if any, leaves the protocol with the first `b` bytes of these, and reports the message's
  -- size exactly where they are `b`.
  pub get_message_size-header :
      (t b : ℕ) (got tail : List ℕ) (p : Protocol)
      → b < 4294967292
      → length (header t b ++ (got ++ tail)) < 9223372036854775808
      → Waits t b got p
      → get_message_size p (header t b ++ (got ++ tail))
        ≡ ok (reported b (got ++ tail), after (header t b) (take b (got ++ tail)))
  get_message_size-header t b got tail p q r (inl e) =
      rw e (get_message_size-fresh t b (got ++ tail) q r)
  get_message_size-header t b got tail p q r (inr (le, e)) =
      rw e (get_message_size-after t b got tail le q r)
