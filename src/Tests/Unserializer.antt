-- ===== src/Tests/Unserializer.antt =====
-- The readers of src/param_unserializer.cpp on small inputs.
use qbm_pgsql.Prelude.{◌≡◌, refl, [], ◌∷◌, codes, ok, throws, runtime_error, true}
use qbm_pgsql.Wire.Laws.{big_endian_host}
use qbm_pgsql.Unserializer.{read_bool, read_smallint, read_text_string}

read_bool_word : read_bool (codes "true") ≡ ok true
unfolding read_bool read_text_string
read_bool_word = refl

read_smallint_short : read_smallint (1 ∷ []) ≡ throws runtime_error
unfolding read_smallint
read_smallint_short = refl
