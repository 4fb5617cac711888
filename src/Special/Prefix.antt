-- ===== src/Special/Prefix.antt =====
-- UUIDs and JSON of src/type_converter.h, with the length in front that a parameter has and without
-- it, as the value of a field is.
use qbm_pgsql.Prelude.{
  ℕ, ◌+◌, ◌<◌, ◌≡◌, ◌≢◌, refl, ap, ◌∙◌, List, [], ◌∷◌, ◌++◌, length, get_or, ok, throws,
  runtime_error, arith, take_all,
}
use qbm_pgsql.Wire.{Host, network_bytes, u32}
use qbm_pgsql.Special.{
  uuid_to_binary, uuid_from_binary, JsonLibrary, parsed, json_from_binary, jsonb_from_binary,
  json_to_binary, jsonb_to_binary,
}

-- A UUID is read back from what `to_binary` makes of it, over any buffer, and its 16 bytes alone are
-- refused.
pub uuid_from_binary-uuid_to_binary :
    (value buffer : List ℕ)
    → length value ≡ 16
    → (uuid_from_binary (uuid_to_binary value buffer) ≡ ok value)
      × (uuid_from_binary value ≡ throws runtime_error)
unfolding uuid_from_binary uuid_to_binary
uuid_from_binary-uuid_to_binary value buffer p =
    (rw p (rw (← p) (ap ok (take_all value))), rw p refl)

module _ ⦃h : Host⦄ (lib : JsonLibrary) where
  open lib use {Json, dump, parse, parse-dump}

  length-prefix : (n : ℕ) → length (network_bytes 4 n) ≡ 4
  unfolding network_bytes
  length-prefix n = h.length-store 4 (h.to_big_endian 4 n)

  parsed-dump : (j : Json) → parsed lib (dump j) ≡ ok j
  unfolding parsed
  parsed-dump j = rw (parse-dump j, parsed) refl

  json-behind :
      (a b c d : ℕ) (s : List ℕ)
      → 0 < length s
      → (json_from_binary lib (a ∷ b ∷ c ∷ d ∷ s) ≡ parsed lib s)
        × (jsonb_from_binary lib (a ∷ b ∷ c ∷ d ∷ 1 ∷ s) ≡ parsed lib s)
  unfolding json_from_binary jsonb_from_binary
  json-behind a b c d s p = (ground arith, ground arith)

  json-prefixed :
      (pre s : List ℕ)
      → length pre ≡ 4
      → 0 < length s
      → (json_from_binary lib (pre ++ s) ≡ parsed lib s)
        × (jsonb_from_binary lib (pre ++ 1 ∷ s) ≡ parsed lib s)
  json-prefixed [] s p q = absurd (omega arith)
  json-prefixed (a ∷ []) s p q = absurd (omega arith)
  json-prefixed (a ∷ b ∷ []) s p q = absurd (omega arith)
  json-prefixed (a ∷ b ∷ c ∷ []) s p q = absurd (omega arith)
  json-prefixed (a ∷ b ∷ c ∷ d ∷ []) s p q = json-behind a b c d s q
  json-prefixed (a ∷ b ∷ c ∷ d ∷ e ∷ pre) s p q = absurd (omega arith)

  -- A document is read back from its binary form, of either type; a value of type `jsonb` as it
  -- stands in a field, its version and the text with no length in front, is refused, unless the
  -- fourth byte of the text happens to be 1.
  pub jsonb_from_binary-jsonb_to_binary :
      (j : Json)
      → 0 < length (dump j)
      → get_or (dump j) 3 0 ≢ 1
      → (json_from_binary lib (json_to_binary lib j []) ≡ ok j)
        × (jsonb_from_binary lib (jsonb_to_binary lib j []) ≡ ok j)
        × (jsonb_from_binary lib (1 ∷ dump j) ≡ throws runtime_error)
  unfolding jsonb_from_binary json_to_binary jsonb_to_binary
  jsonb_from_binary-jsonb_to_binary j p q = (
    (json-prefixed _ (dump j) (length-prefix (u32 (length (dump j)))) p).0 ∙ parsed-dump j,
    (json-prefixed _ (dump j) (length-prefix (u32 (1 + length (dump j)))) p).1 ∙ parsed-dump j,
    ground arith,
  )
