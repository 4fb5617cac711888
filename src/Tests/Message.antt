-- ===== src/Tests/Message.antt =====
-- Messages of src/protocol.cpp on small inputs.
use qbm_pgsql.Prelude.{◌≡◌, refl, some, [], codes, ok}
use qbm_pgsql.Wire.Laws.{big_endian_host}
use qbm_pgsql.Message.{read_string}

-- A text that no terminator ends is read up to the end.
read_string_open : read_string (codes "ab") ≡ ok (some (codes "ab"), [])
unfolding read_string
read_string_open = refl
