-- ===== src/Tests/Framing.antt =====
-- The cutting of a stream by pgsql.h on small inputs.
use qbm_pgsql.Prelude.{ℕ, ◌≡◌, refl, List, [], ◌∷◌, codes, ok, arith}
use qbm_pgsql.Wire.{big_endian}
use qbm_pgsql.Wire.Laws.{big_endian_host}
use qbm_pgsql.Framing.{fresh}
use qbm_pgsql.Framing.Step.{header, after}
use qbm_pgsql.Framing.Chunks.{receive, receive_any_chunks}

-- A message of five bytes of body in three chunks, the first within the header, the last with the
-- start of the next message.
abbrev chunks : List (List ℕ)
chunks = (b'Z' ∷ 0 ∷ []) ∷ (0 ∷ 0 ∷ 9 ∷ codes "ab") ∷ codes "cdeT" ∷ []

receive_any_chunks_example :
    receive fresh [] chunks ≡ ok (10, after (header b'Z' 5) (codes "abcde"))
unfolding header big_endian
receive_any_chunks_example =
    receive_any_chunks b'Z' (codes "abcde") (codes "T") chunks (omega arith) refl (omega arith)
