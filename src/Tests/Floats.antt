-- ===== src/Tests/Floats.antt =====
-- Texts of floating point numbers of src/type_converter.h and src/protocol_io_traits.h on small
-- inputs.
use qbm_pgsql.Prelude.{
  ◌≡◌, refl, none, some, ◌∷◌, [], ◌++◌, codes, ok, throws, invalid_argument, null, if◌then◌else◌,
}
use qbm_pgsql.Convert.Floats.{Printer, float_format, float_to_text, float_from_text}
use qbm_pgsql.Traits.Numbers.{text_reader_float}

-- A library that knows of no number but zero.
abbrev zero_alone : Printer float_format
zero_alone = record {
  to_string = λ v. codes "0.000000";
  scan = λ s. if null s then throws invalid_argument else ok 0;
  to_string-word = λ v n i. refl;
}

words :
    (float_to_text float_format zero_alone 2143289345 ≡ codes "NaN")
    × (float_to_text float_format zero_alone 4286578688 ≡ codes "-Infinity")
    × (float_from_text float_format zero_alone (codes "inf") ≡ ok 2139095040)
    × (float_from_text float_format zero_alone (codes "-inf") ≡ ok 4286578688)
    × (float_from_text float_format zero_alone [] ≡ throws invalid_argument)
unfolding float_to_text float_from_text
words = (refl, refl, refl, refl, refl)

terminated :
    (text_reader_float zero_alone.scan (codes "0" ++ 0 ∷ 9 ∷ []) ≡ ok (some 0, 9 ∷ []))
    × (text_reader_float zero_alone.scan (0 ∷ 9 ∷ []) ≡ ok (none, 0 ∷ 9 ∷ []))
unfolding text_reader_float
terminated = (refl, refl)
