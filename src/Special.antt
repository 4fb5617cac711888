-- ===== src/Special.antt =====
-- The specializations of `TypeConverter` in src/type_converter.h for UUIDs, timestamps and JSON. The
-- types are those of the qb framework: a UUID is its 16 bytes, a timestamp the numbers of seconds
-- and microseconds that it is made of, and JSON is a parameter with its parser and printer.
pub mod Instants
pub mod Prefix
pub mod Texts
use qbm_pgsql.Prelude.{
  ℕ, ◌+◌, ◌≡◌, Bool, true, false, not, Option, none, some, List, [], ◌∷◌, ◌++◌, ltb, leb, ◌==◌,
  if◌then◌else◌, length, get_or, take, drop, Result, ok, throws, undefined, runtime_error, ◌>>=◌,
}
use qbm_pgsql.Prelude.Int.{ℤ, pos, signed, div_ℕ, mod_ℕ, add_ℕ, pred_ℤ, is_negative}
use qbm_pgsql.Wire.{Host, network_bytes, from_network, u32}

-- `to_binary` of a UUID makes the buffer these bytes, whatever it held.
unfoldable pub uuid_to_binary : List ℕ → List ℕ → List ℕ
uuid_to_binary value buffer = 0 ∷ 0 ∷ 0 ∷ 16 ∷ value

-- The branch for a buffer of 16 bytes stands behind the test for 20.
unfoldable pub uuid_from_binary : List ℕ → Result (List ℕ)
uuid_from_binary buffer =
    if ltb (length buffer) 20
    then throws runtime_error
    else if length buffer == 16
    then ok buffer
    else ok (take 16 (drop 4 buffer))

-- Seconds of the Unix epoch and microseconds.
pub record Timestamp : Type 0 where
  pub seconds : ℤ
  pub microseconds : ℤ

abbrev pub postgres_epoch_diff : ℕ
postgres_epoch_diff = 946684800

-- The remainder of a number before 2000 is negative, and is carried.
unfoldable pub timestamp_of : ℤ → Timestamp
timestamp_of pg_usecs =
    let unix_secs = add_ℕ (div_ℕ pg_usecs 1000000) postgres_epoch_diff in
    let unix_usecs = mod_ℕ pg_usecs 1000000 in
    if is_negative unix_usecs
    then record { seconds = pred_ℤ unix_secs; microseconds = add_ℕ unix_usecs 1000000 }
    else record { seconds = unix_secs; microseconds = unix_usecs }

module _ ⦃h : Host⦄ where
  -- A buffer of any other length than eight has a length in front, and eight bytes are copied from
  -- behind it.
  unfoldable pub timestamp_from_binary : List ℕ → Result Timestamp
  unfolding timestamp_of
  timestamp_from_binary buffer =
      if ltb (length buffer) 8
      then throws runtime_error
      else if length buffer == 8
      then ok (timestamp_of (signed 9223372036854775808 (from_network 8 (take 8 buffer))))
      else if ltb (length buffer) 12
      then undefined
      else ok (timestamp_of (signed 9223372036854775808 (from_network 8 (take 8 (drop 4 buffer)))))

-- qb::json, which is nlohmann::json: `parse` gives nothing where it throws.
pub record JsonLibrary : Type 1 where
  pub Json : Type 0
  pub dump : Json → List ℕ
  pub parse : List ℕ → Option Json
  pub parse-dump : (j : Json) → parse (dump j) ≡ some j

module _ (lib : JsonLibrary) where
  open lib use {Json, dump, parse}

  -- The text is parsed; where that fails it is parsed again by the same parser, before the
  -- conversion of arrays, and the failure is reported.
  unfoldable pub parsed : List ℕ → Result Json
  parsed text = elim (parse text) [ some j ↦ ok j | none ↦ throws runtime_error ]

  unfoldable pub json_from_binary : List ℕ → Result Json
  unfolding parsed
  json_from_binary buffer =
      if leb (length buffer) 4 then throws runtime_error else parsed (drop 4 buffer)

  unfoldable pub jsonb_from_binary : List ℕ → Result Json
  unfolding parsed
  jsonb_from_binary buffer =
      if leb (length buffer) 5
      then throws runtime_error
      else if not (get_or buffer 4 0 == 1)
      then throws runtime_error
      else parsed (drop 5 buffer)

  module _ ⦃h : Host⦄ where
    unfoldable pub json_to_binary : Json → List ℕ → List ℕ
    json_to_binary value buffer =
        buffer ++ (network_bytes 4 (u32 (length (dump value))) ++ dump value)

    unfoldable pub jsonb_to_binary : Json → List ℕ → List ℕ
    jsonb_to_binary value buffer =
        buffer ++ (network_bytes 4 (u32 (1 + length (dump value))) ++ (1 ∷ dump value))
