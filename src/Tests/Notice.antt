-- ===== src/Tests/Notice.antt =====
-- Notices of src/protocol.cpp on small inputs.
use qbm_pgsql.Prelude.{ℕ, ◌≡◌, some, List, [], ◌∷◌, codes, ok, arith}
use qbm_pgsql.Notice.{NoticeMessage, empty_notice, read_notice, get}
use qbm_pgsql.Notice
use qbm_pgsql.Notice.Laws.{fields_bytes, last_value, code_of, read_notice-fields_bytes}

abbrev fields : List (ℕ × List ℕ)
fields = (b'S', codes "E") ∷ (b'?', codes "x") ∷ (b'C', codes "4") ∷ []

read_notice-fields_bytes_example :
    (n : NoticeMessage) × (read_notice empty_notice (fields_bytes fields []) ≡ ok (some n, []))
    × ((p : Notice.Member) → get n p ≡ last_value fields (code_of p) (get empty_notice p))
read_notice-fields_bytes_example = read_notice-fields_bytes fields empty_notice [] (
  λ e. omega arith,
  (λ e. omega arith, tt),
  (λ e. omega arith, (λ e. omega arith, tt), (λ e. omega arith, (λ e. omega arith, tt), tt)),
)
