-- ===== src/Message/Laws.antt =====
-- What a message for sending looks like on the wire, for `buffer` and `pack` of src/protocol.cpp.
use qbm_pgsql.Prelude.{
  ℕ, zero, suc, ◌+◌, ◌-◌, ◌<◌, ◌≡◌, ◌≢◌, refl, ap, ◌∙◌, List, [], ◌∷◌, ◌++◌, ◌==◌, if◌then◌else◌,
  length, set, arith, append-nil, length-append, Bool-cases, inl, inr,
}
use qbm_pgsql.Wire.{Host, network_bytes, u32, big_endian}
use qbm_pgsql.Wire.Laws.{network_bytes-eq}
use qbm_pgsql.Message.{Message, message, append, size, with_length, buffer, pack, range, store_at}

-- The protocol's form of one message; the start-up message has no tag.
abbrev pub frame : ℕ → List ℕ → List ℕ
frame t body = (if t == 0 then [] else t ∷ []) ++ (big_endian 4 (4 + length body) ++ body)

length-set : (p : List ℕ) (i v : ℕ) → length (set p i v) ≡ length p
length-set [] i v = refl
length-set (x ∷ p) zero v = refl
length-set (x ∷ p) (suc i) v = ap suc (length-set p i v)

length-store_at : (p : List ℕ) (i : ℕ) (bs : List ℕ) → length (store_at p i bs) ≡ length p
length-store_at p i [] = refl
length-store_at p i (b ∷ bs) = length-store_at (set p i b) (suc i) bs ∙ length-set p i b

range-append : (p q : List ℕ) → 0 < length p → range (p ++ q) ≡ range p ++ q
range-append [] q h = absurd (omega arith)
range-append (c ∷ p) q h = ground arith

empty-length : (p : List ℕ) → length p ≡ 0 → p ≡ []
empty-length [] h = refl
empty-length (x ∷ p) h = absurd (omega arith)

length-pos : (p : List ℕ) → p ≢ [] → 0 < length p
length-pos [] h = absurd (h refl)
length-pos (x ∷ p) h = omega arith

module _ ⦃h : Host⦄ where
  length_field : (n : ℕ) → n < 4294967296 → network_bytes 4 (u32 n) ≡ big_endian 4 n
  length_field n p = let e : u32 n ≡ n = omega arith in rw e (network_bytes-eq 4 n (omega arith))

  length-with_length : (m : Message) → length (with_length m).payload ≡ length m.payload
  unfolding with_length
  length-with_length m = elim (Bool-cases m.packed) [
    | inl e ↦ rw e
    | inr e ↦ rw e (length-store_at m.payload 1 (network_bytes 4 (u32 (size m))))
  ]

  pub with_length-payload :
      (t : ℕ) (body : List ℕ)
      → 4 + length body < 4294967296
      → (with_length (append (message t) body)).payload
        ≡ t ∷ (big_endian 4 (4 + length body) ++ body)
  unfolding with_length append message size big_endian
  with_length-payload t body p =
      let e : suc (suc (suc (suc (suc (length body))))) - 1 ≡ 4 + length body = omega arith in
      rw (e, length_field (4 + length body) p)

  -- A message for sending is its tag, the length of the rest with the length field, and the body.
  pub buffer-frame :
      (t : ℕ) (body : List ℕ)
      → 4 + length body < 4294967296
      → buffer (append (message t) body) ≡ frame t body
  unfolding buffer
  buffer-frame t body p = ground (arith, with_length-payload t body p)

  -- Packing a message into another puts its bytes on the wire behind those of the other.
  pub buffer-pack : (m k : Message) → m.payload ≢ [] → buffer (pack m k) ≡ buffer m ++ buffer k
  unfolding pack
  buffer-pack m k p =
      range-append (with_length m).payload (buffer k)
        (omega (arith, length-with_length m, length-pos m.payload p))

pub message-nonempty : (t : ℕ) → (message t).payload ≢ []
unfolding message
message-nonempty t e = cc

pub append-nonempty : (m : Message) (xs : List ℕ) → m.payload ≢ [] → (append m xs).payload ≢ []
unfolding append
append-nonempty m xs h e =
    h (empty-length m.payload (omega (arith, length-append m.payload xs, ap length e)))

pub append-empty : (m : Message) → append m [] ≡ m
unfolding append
append-empty m = rw (append-nil m.payload)

module _ ⦃h : Host⦄ where
  pub pack-nonempty : (m k : Message) → m.payload ≢ [] → (pack m k).payload ≢ []
  unfolding pack
  pack-nonempty m k h e = h (
      empty-length m.payload (
        omega (
          arith,
          length-append (with_length m).payload (buffer k),
          length-with_length m,
          ap length e,
        )))
