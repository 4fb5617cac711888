-- ===== src/Errors/Laws.antt =====
-- What src/transaction.cpp and src/transaction.h tell of an error.
use qbm_pgsql.Prelude.{ℕ, ◌≡◌, ◌↔◌, refl, ap, true, false, List, inl, inr, null}
use qbm_pgsql.Notice.{NoticeMessage}
use qbm_pgsql.SqlState.{code_to_state, is_known}
use qbm_pgsql.SqlState.Laws.{Listed, code_to_state_lem}
use qbm_pgsql.Errors.{
  has_error, succeeded, error_response, client_error, client_exception, text_error,
}

is_known-code_to_state : (val : List ℕ) → (is_known (code_to_state val) ≡ true) ↔ Listed val
is_known-code_to_state val = elim (code_to_state_lem val) [
  | inl (i, found, known) ↦ (λ h. (i, code_to_state val, found), λ h. known)
  | inr (e, missing) ↦ (
    λ h. let absurdity : ⊥ = cc (ap is_known e) in absurd absurdity,
    λ (i, state, found). absurd (missing i state found),
  )
]

-- Of an error that the server reports, `has_error` is true exactly if the table of states lists its
-- code, while the status counts it as a failure exactly if it has a code at all. Of an error made
-- from a text alone both say that there is none; of a client's error, made from a text or from an
-- exception, both say that there is one.
pub has_error-error_response :
    (notice : NoticeMessage) (text : List ℕ)
    → ((has_error (error_response notice) ≡ true) ↔ Listed notice.sqlstate)
      × (succeeded (error_response notice) ≡ null notice.sqlstate)
      × (has_error (text_error text) ≡ false)
      × (succeeded (text_error text) ≡ true)
      × (has_error (client_error text) ≡ true)
      × (succeeded (client_error text) ≡ false)
      × (has_error (client_exception text) ≡ true)
      × (succeeded (client_exception text) ≡ false)
unfolding has_error succeeded error_response text_error client_error client_exception
has_error-error_response notice text =
    (is_known-code_to_state notice.sqlstate, refl, refl, refl, refl, refl, refl, refl)
