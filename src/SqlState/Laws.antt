-- ===== src/SqlState/Laws.antt =====
-- The tables of src/sqlstates.cpp against each other.
use qbm_pgsql.Prelude.{
  ℕ, zero, suc, ◌≡◌, ◌≢◌, refl, ap, ◌⊎◌, inl, inr, true, none, some, List, [], ◌∷◌, map, get_elem?,
  bytes_eq, bytes_eq_sound, bytes_eq_refl, Option-cases, Bool-cases, arith, at_entry,
}
use qbm_pgsql.SqlState.States.{Code}
use qbm_pgsql.SqlState.{
  codestr_to_state, state_to_codestr, find, code_to_state, state_or_unknown, is_known,
}

printed_states : map (λ e. code_to_state e.1) state_to_codestr ≡ map (λ e. e.0) state_to_codestr
unfolding state_to_codestr code_to_state
printed_states = refl

known_states : map (λ e. is_known e.1) codestr_to_state ≡ map (λ e. true) codestr_to_state
unfolding codestr_to_state
known_states = refl

-- The code that `STATE_TO_CODESTR` prints for a state, `code_to_state` reads as that state.
pub code_to_state-state_to_codestr :
    (i : ℕ) (state : Code) (val : List ℕ)
    → get_elem? state_to_codestr i ≡ some (state, val)
    → code_to_state val ≡ state
code_to_state-state_to_codestr i state val h =
    at_entry (λ e. code_to_state e.1) (λ e. e.0) state_to_codestr i (state, val) printed_states h

find_sound :
    (val : List ℕ) (t : List (List ℕ × Code)) (state : Code)
    → find val t ≡ some state
    → (i : ℕ) × (get_elem? t i ≡ some (val, state))
unfolding find
find_sound val [] state h = let absurdity : ⊥ = cc in absurd absurdity
find_sound val ((key, st) ∷ t) state h = elim (Bool-cases (bytes_eq key val)) [
  | inl e ↦ (0, ground (arith, bytes_eq_sound key val e))
  | inr e ↦ let (i, found) = find_sound val t state (ground arith) in (suc i, found)
]

find_complete :
    (val : List ℕ) (t : List (List ℕ × Code)) (i : ℕ) (state : Code)
    → find val t ≡ none
    → get_elem? t i ≢ some (val, state)
unfolding find
find_complete val [] i state h e = cc
find_complete val ((key, st) ∷ t) zero state h e = ground (arith, bytes_eq_refl val)
find_complete val ((key, st) ∷ t) (suc i) state h e = find_complete val t i state (ground arith) e

-- What the table holds of a code.
abbrev pub Listed : List ℕ → Type 0
Listed val = (i : ℕ) × (state : Code) × (get_elem? codestr_to_state i ≡ some (val, state))

-- `code_to_state` gives a state that the table has for the code, which is a known one; a code that
-- the table lacks, of whatever length, it reads as `unknown_code`.
pub code_to_state_lem :
    (val : List ℕ)
    → ((i : ℕ) × (get_elem? codestr_to_state i ≡ some (val, code_to_state val))
        × (is_known (code_to_state val) ≡ true))
      ⊎ ((code_to_state val ≡ Code.unknown_code)
          × ((i : ℕ) (state : Code) → get_elem? codestr_to_state i ≢ some (val, state)))
unfolding code_to_state
code_to_state_lem val = elim (Option-cases (find val codestr_to_state)) [
  | inl e ↦ inr (ap state_or_unknown e, λ i state. find_complete val codestr_to_state i state e)
  | inr (state, e) ↦
      let (i, found) = find_sound val codestr_to_state state e in
      inl (
        i,
        rw e found,
        rw e (
            at_entry (λ x. is_known x.1) (λ x. true) codestr_to_state i (val, state) known_states
              found),
      )
]
