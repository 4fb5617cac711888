-- ===== src/Message.antt =====
-- The class `message` of src/protocol.h and src/protocol.cpp: a buffer that starts with a tag byte
-- and four bytes of length. `unread` is the payload from the iterator `curr_` on. Asserts are
-- compiled out.
pub mod Tag
pub mod Laws
pub mod Writes
pub mod Reads
use qbm_pgsql.Prelude.{
  ℕ, zero, suc, ◌+◌, ◌-◌, ◌*◌, Bool, true, false, not, Option, none, some, List, [], ◌∷◌, ◌++◌, ltb,
  leb, ◌==◌, if◌then◌else◌, length, set, get_or, take, drop, null, Result, ok, throws, undefined,
}
use qbm_pgsql.Wire.{Host, network_bytes, from_network, u16, u32}
use qbm_pgsql.Reader.{Reader, ◌>>=◌, pure}
use qbm_pgsql.Traits.{
  protocol_read, binary_reader_smallint, binary_reader_integer, text_reader_string,
}

pub record Message : Type 0 where
  pub payload : List ℕ
  pub unread : List ℕ
  pub packed : Bool

-- `message()`, for reading, and `message(tag)`, for sending.
unfoldable pub incoming : Message
incoming = record { payload = []; unread = []; packed = false }

unfoldable pub message : ℕ → Message
message t = record { payload = t ∷ 0 ∷ 0 ∷ 0 ∷ 0 ∷ []; unread = []; packed = false }

-- `empty_tag` where there is no byte.
unfoldable pub tag : Message → ℕ
tag m = get_or m.payload 0 0

unfoldable pub size : Message → ℕ
size m = if null m.payload then 0 else length m.payload - 1

unfoldable pub buffer_size : Message → ℕ
buffer_size m = length m.payload

-- `payload[i] = bs[0]; payload[i + 1] = bs[1]; …`
abbrev pub store_at : List ℕ → ℕ → List ℕ → List ℕ
store_at p i [] = p
store_at p i (b ∷ bs) = store_at (set p i b) (suc i) bs

-- What `output()` appends through its back inserter.
unfoldable pub append : Message → List ℕ → Message
append m bytes = record m { payload = m.payload ++ bytes }

unfoldable pub reset_read : Message → Message
reset_read m = record m { unread = if leb (length m.payload) 5 then [] else drop 5 m.payload }

unfoldable pub write_char : Message → ℕ → Message
unfolding append
write_char m c = append m (c ∷ [])

-- A text and its terminator; the text alone.
unfoldable pub write_string : Message → List ℕ → Message
unfolding append
write_string m s = append (append m s) (0 ∷ [])

unfoldable pub write_sv : Message → List ℕ → Message
unfolding append
write_sv m s = append m s

-- The range that `buffer()` returns: a first byte of zero is skipped.
abbrev pub range : List ℕ → List ℕ
range [] = []
range (c ∷ p) = if c == 0 then p else c ∷ p

module _ ⦃h : Host⦄ where
  unfoldable pub message_length : Message → ℕ
  message_length m =
      if leb 5 (length m.payload) then from_network 4 (take 4 (drop 1 m.payload)) else 0

  -- `buffer()` stores the length, unless the message is packed; the payload is mutable.
  unfoldable pub with_length : Message → Message
  unfolding size
  with_length m =
      if not m.packed
      then record m { payload = store_at m.payload 1 (network_bytes 4 (u32 (size m))) }
      else m

  unfoldable pub buffer : Message → List ℕ
  unfolding with_length
  buffer m = range (with_length m).payload

  -- `write_int` at 16 and at 32 bits.
  unfoldable pub write_smallint : Message → ℕ → Message
  unfolding append
  write_smallint m v = append m (network_bytes 2 v)

  unfoldable pub write_integer : Message → ℕ → Message
  unfolding append
  write_integer m v = append m (network_bytes 4 v)

  unfoldable pub pack : Message → Message → Message
  unfolding with_length buffer
  pack m k = let m' = with_length m in record m' { packed = true; payload = m'.payload ++ buffer k }

-- `if (curr_ == c) return false; curr_ = c; return true;`
abbrev pub settle : {A : Type 0} → Option A → List ℕ → List ℕ → Result (Option A × List ℕ)
settle value c s = if length c == length s then ok (none, s) else ok (value, c)

abbrev pub moved : {A : Type 0} → Result (Option A × List ℕ) → List ℕ → Result (Option A × List ℕ)
moved (ok (value, c)) s = settle value c s
moved (throws e) s = throws e
moved undefined s = undefined

unfoldable pub read_char : Reader ℕ
read_char [] = ok (none, [])
read_char (c ∷ s) = ok (some c, s)

unfoldable pub read_string : Reader (List ℕ)
unfolding protocol_read text_reader_string
read_string s = moved (protocol_read text_reader_string s) s

-- `read(val, n)`; a count of 2 ^ 63 or more is negative as a signed number and passes the test.
unfoldable pub read_bytes : ℕ → Reader (List ℕ)
read_bytes n s =
    if leb 9223372036854775808 n
    then undefined
    else if leb n (length s)
    then ok (some (take n s), drop n s)
    else ok (none, s)

pub record FieldDescription : Type 0 where
  pub name : List ℕ
  pub table_oid : ℕ
  pub attribute_number : ℕ
  pub type_oid : ℕ
  pub type_size : ℕ
  pub type_mod : ℕ
  pub format_code : ℕ
  pub max_size : ℕ

module _ ⦃h : Host⦄ where
  unfoldable pub read_smallint : Reader ℕ
  unfolding protocol_read binary_reader_smallint
  read_smallint s = moved (protocol_read binary_reader_smallint s) s

  unfoldable pub read_integer : Reader ℕ
  unfolding protocol_read binary_reader_integer
  read_integer s = moved (protocol_read binary_reader_integer s) s

  unfoldable pub read_field : Reader FieldDescription
  read_field = do
    name ← read_string
    table_oid ← read_integer
    attribute_number ← read_smallint
    type_oid ← read_integer
    type_size ← read_smallint
    type_mod ← read_integer
    format_code ← read_smallint
    pure (record {
      name = name;
      table_oid = table_oid;
      attribute_number = attribute_number;
      type_oid = type_oid;
      type_size = type_size;
      type_mod = type_mod;
      format_code = format_code;
      max_size = 0;
    })
