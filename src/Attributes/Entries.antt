-- ===== src/Attributes/Entries.antt =====
-- The dictionary of `parse_header_attributes` of pgsql.h, as what is found in it.
use qbm_pgsql.Prelude.{
  ℕ, ◌≡◌, refl, ◌∙◌, sym, Bool, true, false, Option, none, some, List, [], ◌∷◌, ◌++◌, if◌then◌else◌,
  Bool-cases, inl, inr, All, All-append, append_assoc, append-nil, arith,
}
use qbm_pgsql.Attributes.{Dict, contains, emplace}

module _ (same : List ℕ → List ℕ → Bool) where
  abbrev pub emplace_all : Dict → Dict → Dict
  emplace_all d [] = d
  emplace_all d ((n, v) ∷ rest) = emplace_all (emplace same d n v) rest

  -- The first value under the key of a name.
  abbrev pub value_under : Dict → List ℕ → Option (List ℕ)
  value_under [] m = none
  value_under ((k, v) ∷ d) m = if same k m then some v else value_under d m

  -- No key is there twice.
  abbrev pub Distinct : Dict → Type 0
  Distinct [] = Unit {0}
  Distinct ((k, v) ∷ d) = All (λ e. same k e.0 ≡ false) d × Distinct d

  Distinct-append :
      (d : Dict) (n v : List ℕ)
      → contains same d n ≡ false
      → Distinct d
      → Distinct (d ++ (n, v) ∷ [])
  Distinct-append [] n v p h = (tt, tt)
  Distinct-append ((k, w) ∷ d) n v p (a, h) =
      let other : same k n ≡ false = ground arith in
      let others : contains same d n ≡ false = ground arith in
      (
        All-append (λ e. same k e.0 ≡ false) d ((n, v) ∷ []) a (other, tt),
        Distinct-append d n v others h,
      )

  emplace-Distinct : (d : Dict) (n v : List ℕ) → Distinct d → Distinct (emplace same d n v)
  unfolding emplace
  emplace-Distinct d n v h = elim (Bool-cases (contains same d n)) [
    | inl e ↦ rw e h
    | inr e ↦ rw e (Distinct-append d n v e h)
  ]

  pub emplace_all-Distinct : (d rest : Dict) → Distinct d → Distinct (emplace_all d rest)
  emplace_all-Distinct d [] h = h
  emplace_all-Distinct d ((n, v) ∷ rest) h =
      emplace_all-Distinct (emplace same d n v) rest (emplace-Distinct d n v h)

  -- An entry that is not under the key of a name is not found by it.
  value_under-other :
      (d rest : Dict) (n v m : List ℕ)
      → same n m ≡ false
      → value_under (d ++ (n, v) ∷ rest) m ≡ value_under (d ++ rest) m
  value_under-other [] rest n v m p = rw p refl
  value_under-other ((k, w) ∷ d) rest n v m p = rw (value_under-other d rest n v m p) refl

  module _ (t : (a b c : List ℕ) → same a b ≡ true → same b c ≡ true → same a c ≡ true) where
    -- An entry whose key is there already is never found.
    value_under-hidden :
        (d rest : Dict) (n v m : List ℕ)
        → contains same d n ≡ true
        → value_under (d ++ (n, v) ∷ rest) m ≡ value_under (d ++ rest) m
    value_under-hidden [] rest n v m p = let x : ⊥ = cc in absurd x
    value_under-hidden ((k, w) ∷ d) rest n v m p = elim (Bool-cases (same n m)) [
      | inr e ↦ value_under-other ((k, w) ∷ d) rest n v m e
      | inl e ↦ elim (Bool-cases (same k n)) [
        | inl f ↦ rw (t k n m f e) refl
        | inr f ↦
            let later : contains same d n ≡ true = ground (arith, p, f) in
            rw (value_under-hidden d rest n v m later) refl
      ]
    ]

    pub value_under-emplace_all :
        (d rest : Dict) (m : List ℕ)
        → value_under (emplace_all d rest) m ≡ value_under (d ++ rest) m
    unfolding emplace
    value_under-emplace_all d [] m = rw (append-nil d) refl
    value_under-emplace_all d ((n, v) ∷ rest) m = elim (Bool-cases (contains same d n)) [
      | inl e ↦ rw e (value_under-emplace_all d rest m ∙ sym (value_under-hidden d rest n v m e))
      | inr e ↦ rw e (
          value_under-emplace_all (d ++ (n, v) ∷ []) rest m
          ∙ rw (append_assoc d ((n, v) ∷ []) rest) refl)
    ]
