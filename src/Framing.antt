-- ===== src/Framing.antt =====
-- The protocol object of pgsql.h, `qb::protocol::pgsql`: it cuts the byte stream of the server into
-- messages. `input` is the transport's buffer, which keeps the bytes of a message until it is
-- whole; what moves bytes into it and drops a finished message from it is the qb framework.
pub mod Step
pub mod Chunks
use qbm_pgsql.Prelude.{
  ℕ, ◌+◌, ◌-◌, ◌%◌, Bool, true, false, not, Option, none, some, List, [], ◌∷◌, ◌++◌, ltb, ◌==◌,
  if◌then◌else◌, length, take, drop, Result, ok, throws, undefined, ◌>>=◌,
}
use qbm_pgsql.Wire.{Host}
use qbm_pgsql.Message.{Message, incoming, append, message_length, size, buffer_size, reset_read}
use Prim.Native.Nat.{min}

pub record Protocol : Type 0 where
  pub current : Option Message
  pub offset : ℕ

abbrev pub fresh : Protocol
fresh = record { current = none; offset = 0 }

-- `a - b` at `size_t`.
unfoldable pub sub64 : ℕ → ℕ → ℕ
sub64 a b = (a + 18446744073709551616 - b) % 18446744073709551616

-- The `n` bytes of the input from `offset` on, copied without a look at its end.
unfoldable pub copy_from : List ℕ → ℕ → ℕ → Result (List ℕ)
copy_from input offset n =
    if ltb (length input) (offset + n) then undefined else ok (take n (drop offset input))

module _ ⦃h : Host⦄ where
  -- The part behind the header: more of the body, and the test for its end.
  unfoldable pub read_body : Message → ℕ → List ℕ → ℕ → Result (ℕ × Protocol)
  unfolding copy_from sub64
  read_body m offset input max_bytes =
      let wanted = sub64 (message_length m) (size m) in
      let to_copy = if ltb (size m) (message_length m) then min wanted max_bytes else 0 in
      copy_from input offset to_copy >>= λ bytes.
      let m' = append m bytes in
      ok (
        (if message_length m' == size m' then buffer_size m' else 0),
        record { current = some m'; offset = offset + to_copy },
      )

  unfoldable pub get_message_size : Protocol → List ℕ → Result (ℕ × Protocol)
  get_message_size p input = if ltb (length input) 5 then ok (0, p) else elim p.current [
    | none ↦
        read_body (append incoming (take 5 input)) (p.offset + 5) input
          (sub64 (sub64 (length input) p.offset) 5)
    | some m ↦ read_body m p.offset input (sub64 (length input) p.offset)
  ]

-- `onMessage`: the message is handed over, at its start, unless the protocol has failed.
unfoldable pub on_message : Bool → Protocol → Result (Option Message × Protocol)
unfolding reset_read
on_message is_ok p =
    if not is_ok
    then ok (none, p)
    else elim p.current [ none ↦ undefined | some m ↦ ok (some (reset_read m), fresh) ]
