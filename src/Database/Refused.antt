-- ===== src/Database/Refused.antt =====
-- The loop of `connect` in pgsql.h after a refusal.
use qbm_pgsql.Prelude.{ℕ, ◌≡◌, ◌↔◌, refl, Bool, true, false, not, List, [], ok, subst, sym}
use qbm_pgsql.Notice.{NoticeMessage, empty_notice, Member}
use qbm_pgsql.Notice.Laws.{AreFields, fields_bytes, last_value, read_notice-fields_bytes}
use qbm_pgsql.SqlState.Laws.{Listed}
use qbm_pgsql.Errors.{has_error, error_response}
use qbm_pgsql.Errors.Laws.{has_error-error_response}
use qbm_pgsql.Database.{
  Database, on_error_query, on_error_response, on_disconnected, waits_for_connection,
}

not-false : (b : Bool) → (not b ≡ false) ↔ (b ≡ true)
not-false true = (λ e. refl, λ e. refl)
not-false false = (λ e. sym e, λ e. sym e)

-- The database that a notice refuses, while it connects.
waits-refused :
    (d : Database) (notice : NoticeMessage)
    → d.session.is_connected ≡ false
    → let e = on_error_query (error_response notice) d in
      (on_disconnected e ≡ e) × ((waits_for_connection e ≡ false) ↔ Listed notice.sqlstate)
unfolding on_error_query on_disconnected waits_for_connection
waits-refused d notice c =
    let listed = (has_error-error_response notice []).0 in
    let (one, other) = not-false (has_error (error_response notice)) in
    rw (c) (refl, (λ w. listed.0 (one w), λ l. other (listed.1 l)))

-- While the client connects, an error response with any fields is handled, and the loop that
-- waits for the connection ends after it exactly if the code that it gives last is in the table of
-- states; the end of the connection, which the server then brings about, changes nothing, so that
-- after a refusal with another code, or with none, the loop goes on.
pub on_error_response-waits_for_connection :
    (d : Database) (fs : List (ℕ × List ℕ)) (s : List ℕ)
    → AreFields fs
    → d.session.is_connected ≡ false
    → (e : Database) × (on_error_response d (fields_bytes fs s) ≡ ok e)
      × (on_disconnected e ≡ e)
      × ((waits_for_connection e ≡ false) ↔ Listed (last_value fs b'C' []))
unfolding on_error_response
on_error_response-waits_for_connection d fs s a c =
    let (notice, read, members) = read_notice-fields_bytes fs empty_notice s a in
    let (closed, waits) = waits-refused d notice c in
    (
      on_error_query (error_response notice) d,
      rw read refl,
      closed,
      subst
          (λ code.
            (waits_for_connection (on_error_query (error_response notice) d) ≡ false) ↔ Listed code)
          (members Member.sqlstate) waits,
    )
