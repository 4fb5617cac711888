-- ===== src/Message/Reads.antt =====
-- Reading back what was written: the reads of src/protocol.cpp on the bytes of the protocol.
use qbm_pgsql.Prelude.{
  ℕ, ◌<◌, ◌≡◌, ◌≢◌, refl, List, [], ◌∷◌, ◌++◌, arith, some, All, take-append, drop-append,
  length-append, ok,
}
use qbm_pgsql.Wire.{Host, big_endian}
use qbm_pgsql.Wire.Laws.{length-big_endian, from_network-big_endian}
use qbm_pgsql.Traits.{before_nul, from_nul, protocol_read, text_reader_string}
use qbm_pgsql.Unserializer
use qbm_pgsql.Message.{read_smallint, read_integer, read_string, read_field, FieldDescription}

-- A text that a terminator may follow.
abbrev pub NoNul : List ℕ → Type 0
NoNul = All (λ b. b ≢ 0)

pub before_nul-append : (t s : List ℕ) → NoNul t → before_nul (t ++ 0 ∷ s) ≡ t
before_nul-append [] s n = refl
before_nul-append (c ∷ t) s n = ground (arith, before_nul-append t s n.1)

pub from_nul-append : (t s : List ℕ) → NoNul t → from_nul (t ++ 0 ∷ s) ≡ 0 ∷ s
from_nul-append [] s n = refl
from_nul-append (c ∷ t) s n = ground (arith, from_nul-append t s n.1)

pub read_string-nul : (t s : List ℕ) → NoNul t → read_string (t ++ 0 ∷ s) ≡ ok (some t, s)
unfolding read_string protocol_read text_reader_string
read_string-nul [] s n = ground arith
read_string-nul (c ∷ t) s n =
    ground (arith, before_nul-append t s n.1, from_nul-append t s n.1, length-append t (0 ∷ s))

module _ ⦃h : Host⦄ where
  pub read_smallint-big_endian :
      (v : ℕ) (s : List ℕ) → v < 65536 → read_smallint (big_endian 2 v ++ s) ≡ ok (some v, s)
  unfolding read_smallint Unserializer.read_smallint
  read_smallint-big_endian v s p = ground (
    arith,
    length-append (big_endian 2 v) s,
    length-big_endian 2 v,
    take-append 2 (big_endian 2 v) s (length-big_endian 2 v),
    drop-append 2 (big_endian 2 v) s (length-big_endian 2 v),
    from_network-big_endian 2 v,
  )

  pub read_integer-big_endian :
      (v : ℕ) (s : List ℕ) → v < 4294967296 → read_integer (big_endian 4 v ++ s) ≡ ok (some v, s)
  unfolding read_integer Unserializer.read_integer
  read_integer-big_endian v s p = ground (
    arith,
    length-append (big_endian 4 v) s,
    length-big_endian 4 v,
    take-append 4 (big_endian 4 v) s (length-big_endian 4 v),
    drop-append 4 (big_endian 4 v) s (length-big_endian 4 v),
    from_network-big_endian 4 v,
  )

-- A field of a row description, as the protocol lays it out, with what follows it.
abbrev pub field_bytes : FieldDescription → List ℕ → List ℕ
field_bytes f s =
    f.name
    ++ 0
      ∷ (big_endian 4 f.table_oid
          ++ (big_endian 2 f.attribute_number
              ++ (big_endian 4 f.type_oid
                  ++ (big_endian 2 f.type_size
                      ++ (big_endian 4 f.type_mod ++ (big_endian 2 f.format_code ++ s))))))

pub record IsField (f : FieldDescription) : Type 0 where
  pub name_text : NoNul f.name
  pub table_fits : f.table_oid < 4294967296
  pub number_fits : f.attribute_number < 65536
  pub oid_fits : f.type_oid < 4294967296
  pub size_fits : f.type_size < 65536
  pub mod_fits : f.type_mod < 4294967296
  pub code_fits : f.format_code < 65536

module _ ⦃h : Host⦄ where
  -- A field description is read back from the protocol's bytes, `max_size` being set to 0, and the
  -- cursor stands behind it.
  pub read_field-field_bytes :
      (f : FieldDescription) (s : List ℕ)
      → IsField f
      → read_field (field_bytes f s) ≡ ok (some (record f { max_size = 0 }), s)
  unfolding read_field
  read_field-field_bytes f s v = rw (
    read_string-nul f.name _ v.name_text,
    read_integer-big_endian f.table_oid _ v.table_fits,
    read_smallint-big_endian f.attribute_number _ v.number_fits,
    read_integer-big_endian f.type_oid _ v.oid_fits,
    read_smallint-big_endian f.type_size _ v.size_fits,
    read_integer-big_endian f.type_mod _ v.mod_fits,
    read_smallint-big_endian f.format_code _ v.code_fits,
  )
