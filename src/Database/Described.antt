-- ===== src/Database/Described.antt =====
-- `on_row_description` of pgsql.h on the bytes of a row description.
use qbm_pgsql.Prelude.{
  ℕ, ◌<◌, ◌≡◌, refl, ap, ◌∙◌, true, List, [], ◌∷◌, ◌++◌, length, map, ok, arith, All, append_assoc,
  append-nil,
}
use qbm_pgsql.Wire.{Host, big_endian}
use qbm_pgsql.Message.{FieldDescription}
use qbm_pgsql.Message.Reads.{IsField, field_bytes, read_field-field_bytes, read_smallint-big_endian}
use qbm_pgsql.Transaction.{Kind}
use qbm_pgsql.Transaction.Popping.{Client}
use qbm_pgsql.Transaction.Session
use qbm_pgsql.Database.{Database, read_fields, read_description}

abbrev pub as_read : FieldDescription → FieldDescription
as_read f = record f { max_size = 0 }

abbrev pub all_fields_bytes : List FieldDescription → List ℕ → List ℕ
all_fields_bytes [] s = s
all_fields_bytes (f ∷ fs) s = field_bytes f (all_fields_bytes fs s)

-- The client with another kind of its current command.
abbrev pub with_kind : Kind → Client → Client
with_kind k c = record c {
  current = record c.current { command = record c.current.command { kind = k } };
}

module _ ⦃h : Host⦄ where
  pub read_fields-all_fields_bytes :
      (fs done : List FieldDescription) (s : List ℕ)
      → All IsField fs
      → read_fields (length fs) done (all_fields_bytes fs s) ≡ ok (done ++ map as_read fs, true)
  unfolding read_fields
  read_fields-all_fields_bytes [] done s a = rw (append-nil done) refl
  read_fields-all_fields_bytes (f ∷ fs) done s (a, rest) =
      rw (read_field-field_bytes f (all_fields_bytes fs s) a) (
        read_fields-all_fields_bytes fs (done ++ as_read f ∷ []) s rest
        ∙ ap (λ l. ok (l, true)) (append_assoc done (as_read f ∷ []) (map as_read fs)))

  pub read_description-all_fields_bytes :
      (fs : List FieldDescription) (s : List ℕ)
      → All IsField fs
      → length fs < 32768
      → read_description (big_endian 2 (length fs) ++ all_fields_bytes fs s)
        ≡ ok (map as_read fs, true)
  unfolding read_description
  read_description-all_fields_bytes fs s a p =
      rw
        (
          read_smallint-big_endian (length fs) (all_fields_bytes fs s) (omega arith),
          read_fields-all_fields_bytes fs [] s a,
        )
        (ground arith)
