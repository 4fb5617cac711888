-- ===== src/Attributes/RoundTrip.antt =====
-- Attributes as SCRAM writes them, read by `parse_header_attributes` of pgsql.h.
use qbm_pgsql.Prelude.{
  ℕ, ◌+◌, ◌≤◌, ◌≡◌, refl, ◌∙◌, Bool, true, not, ◌||◌, ◌&&◌, List, [], ◌∷◌, ◌++◌, ◌==◌, length, ok,
  ◌>>=◌, All, arith, append_assoc, append-nil, length-append,
}
use qbm_pgsql.Attributes.Entries.{
  Distinct, value_under, emplace_all, emplace_all-Distinct, value_under-emplace_all,
}
use qbm_pgsql.Attributes.{
  Mode, Scan, Dict, is_control, is_end, name_max, value_max, emplace, on_name, on_unquoted, step,
  scan, parse,
}

-- A character of a name, one of a value, and one that may start a value.
abbrev pub in_name : ℕ → Bool
in_name c = not (c == b'=' || (is_end c || (c == b' ' || is_control c)))

abbrev pub in_value : ℕ → Bool
in_value c = not (is_end c || is_control c)

abbrev pub starts_value : ℕ → Bool
starts_value c = in_value c && not (c == 39 || (c == b'"' || c == b' '))

abbrev pub IsName : List ℕ → Type 0
IsName n = All (λ c. in_name c ≡ true) n × (length n ≤ name_max)

abbrev pub IsValue : List ℕ → Type 0
IsValue [] = Unit {0}
IsValue (c ∷ v) =
    (starts_value c ≡ true) × All (λ d. in_value d ≡ true) v × (length (c ∷ v) ≤ value_max)

abbrev at : Mode → List ℕ → List ℕ → Dict → Scan
at m n v d = record { mode = m; attribute_name = n; attribute_value = v; quote = 0; dict = d }

module _ (same : List ℕ → List ℕ → Bool) where
  on_name-in_name :
      (pre : List ℕ) (d : Dict) (c : ℕ)
      → in_name c ≡ true
      → length pre + 1 ≤ name_max
      → on_name same (at Mode.name pre [] d) c ≡ ok (at Mode.name (pre ++ c ∷ []) [] d)
  unfolding on_name
  on_name-in_name pre d c a h = ground arith

  scan-name :
      (n rest pre : List ℕ) (d : Dict)
      → All (λ c. in_name c ≡ true) n
      → length pre + length n ≤ name_max
      → scan same (n ++ rest) (at Mode.name pre [] d)
        ≡ scan same rest (at Mode.name (pre ++ n) [] d)
  unfolding scan step
  scan-name [] rest pre d a h = simp append-nil
  scan-name (c ∷ n) rest pre d a h = rw (on_name-in_name pre d c a.0 (omega arith)) (
      scan-name n rest (pre ++ c ∷ []) d a.1 (omega (arith, length-append pre (c ∷ [])))
      ∙ simp append_assoc)

  on_unquoted-first :
      (n : List ℕ) (d : Dict) (c : ℕ)
      → starts_value c ≡ true
      → on_unquoted same (at Mode.value n [] d) c ≡ ok (at Mode.value n (c ∷ []) d)
  unfolding on_unquoted
  on_unquoted-first n d c a = ground arith

  on_unquoted-more :
      (n v : List ℕ) (b : ℕ) (d : Dict) (c : ℕ)
      → in_value c ≡ true
      → length (b ∷ v) + 1 ≤ value_max
      → on_unquoted same (at Mode.value n (b ∷ v) d) c ≡ ok (at Mode.value n (b ∷ (v ++ c ∷ [])) d)
  unfolding on_unquoted
  on_unquoted-more n v b d c a h = ground arith

  scan-more :
      (v rest n w : List ℕ) (b : ℕ) (d : Dict)
      → All (λ c. in_value c ≡ true) v
      → length (b ∷ w) + length v ≤ value_max
      → scan same (v ++ rest) (at Mode.value n (b ∷ w) d)
        ≡ scan same rest (at Mode.value n (b ∷ (w ++ v)) d)
  unfolding scan step
  scan-more [] rest n w b d a h = simp append-nil
  scan-more (c ∷ v) rest n w b d a h = rw (on_unquoted-more n w b d c a.0 (omega arith)) (
      scan-more v rest n (w ++ c ∷ []) b d a.1 (omega (arith, length-append w (c ∷ [])))
      ∙ simp append_assoc)

  scan-value :
      (v rest n : List ℕ) (d : Dict)
      → IsValue v
      → scan same (v ++ rest) (at Mode.value n [] d) ≡ scan same rest (at Mode.value n v d)
  unfolding scan step
  scan-value [] rest n d a = refl
  scan-value (c ∷ v) rest n d a =
      rw (on_unquoted-first n d c a.0) (scan-more v rest n [] c d a.1 (omega (arith, a.2)))

  -- `name=value`, and attributes with commas between them.
  abbrev pub attribute : List ℕ → List ℕ → List ℕ → List ℕ
  attribute n v rest = n ++ b'=' ∷ (v ++ rest)

  abbrev pub attributes : List ℕ → List ℕ → List (List ℕ × List ℕ) → List ℕ
  attributes n v [] = attribute n v []
  attributes n v ((m, w) ∷ rest) = attribute n v (b',' ∷ attributes m w rest)

  scan-attribute :
      (n v rest : List ℕ) (d : Dict)
      → IsName n
      → IsValue v
      → scan same (attribute n v rest) (at Mode.name [] [] d) ≡ scan same rest (at Mode.value n v d)
  unfolding scan step on_name
  scan-attribute n v rest d a b =
      scan-name n (b'=' ∷ (v ++ rest)) [] d a.0 (omega (arith, a.1)) ∙ scan-value v rest n d b

  scan-comma :
      (n v rest : List ℕ) (d : Dict)
      → scan same (b',' ∷ rest) (at Mode.value n v d)
        ≡ scan same rest (at Mode.name [] [] (emplace same d n v))
  unfolding scan step on_unquoted
  scan-comma n v rest d = refl

  abbrev pub AreAttributes : List (List ℕ × List ℕ) → Type 0
  AreAttributes [] = Unit {0}
  AreAttributes ((n, v) ∷ rest) = IsName n × IsValue v × AreAttributes rest

  scan-attributes :
      (n v : List ℕ) (rest : List (List ℕ × List ℕ)) (d : Dict)
      → IsName n
      → IsValue v
      → AreAttributes rest
      → (scan same (attributes n v rest) (at Mode.name [] [] d) >>= λ p.
          ok (emplace same p.dict p.attribute_name p.attribute_value))
        ≡ ok (emplace_all same d ((n, v) ∷ rest))
  unfolding scan
  scan-attributes n v [] d a b c = rw (scan-attribute n v [] d a b) refl
  scan-attributes n v ((m, w) ∷ rest) d a b c =
      rw
        (
          scan-attribute n v (b',' ∷ attributes m w rest) d a b,
          scan-comma n v (attributes m w rest) d,
        )
        (scan-attributes m w rest (emplace same d n v) c.0 c.1 c.2)

  pub parse-emplace_all :
      (n v : List ℕ) (rest : Dict)
      → IsName n
      → IsValue v
      → AreAttributes rest
      → parse same (attributes n v rest) ≡ ok (emplace_all same [] ((n, v) ∷ rest))
  unfolding parse
  parse-emplace_all n v rest a b c = scan-attributes n v rest [] a b c

  -- Attributes `name=value` with commas between them are read into a dictionary that has no two
  -- entries under one key, and that has under any name the value of the first attribute under the
  -- same key, and nothing where there is none. The condition on the names that are one key is that
  -- this relation is transitive; a name has at most 1024 characters, none of them `=`, an end, a
  -- space or a control character, and a value at most 2 ^ 20, none of them an end or a control
  -- character, the first no quote and no space.
  pub parse-attributes :
      (n v : List ℕ) (rest : Dict)
      → ((a b c : List ℕ) → same a b ≡ true → same b c ≡ true → same a c ≡ true)
      → IsName n
      → IsValue v
      → AreAttributes rest
      → (d : Dict) × (parse same (attributes n v rest) ≡ ok d)
        × Distinct same d
        × ((m : List ℕ) → value_under same d m ≡ value_under same ((n, v) ∷ rest) m)
  parse-attributes n v rest t a b c = (
    emplace_all same [] ((n, v) ∷ rest),
    parse-emplace_all n v rest a b c,
    emplace_all-Distinct same [] ((n, v) ∷ rest) tt,
    value_under-emplace_all same t [] ((n, v) ∷ rest),
  )
