-- ===== src/Database/Failed.antt =====
-- The error of `Database` in pgsql.h, from which `await` of src/transaction.cpp makes its status.
use qbm_pgsql.Prelude.{
  ◌≡◌, refl, subst, Bool, true, false, not, ◌||◌, List, [], ◌∷◌, ◌==◌, null, ok, All, arith,
  Bool-cases, inl, inr, drop, length,
}
use qbm_pgsql.Prelude.Outcomes.{IfOk, IfOk-bind, IfOk-bind_if, IfOk-map}
use qbm_pgsql.Wire.{Host, IsBytes}
use qbm_pgsql.Message.{Message, tag, read_char}
use qbm_pgsql.Message.Tag
use qbm_pgsql.Notice.{empty_notice, read_notice}
use qbm_pgsql.Errors.{DbError, succeeded, client_error}
use qbm_pgsql.Errors.Laws.{has_error-error_response}
use qbm_pgsql.Transaction.{Event, sent, failed, handled, unprocessed}
use qbm_pgsql.Transaction.Session
use qbm_pgsql.Database.{
  Database, Services, noted, notice_or, on_error_query, on_error_response, on_ready_for_query,
  on_message, on_messages,
}
use qbm_pgsql.Database.Routing.{on_message-IfOk}
use qbm_pgsql.Database.Success.{on_authentication-Connects}
use qbm_pgsql.Database.Connected.{AreBytes}

-- The status that `await` makes of the error is a failure.
abbrev pub has_failed : Database → Bool
has_failed d = not (succeeded d.error)

abbrev pub is_refusal : Message → Bool
is_refusal m = tag m == Tag.error_response

abbrev pub any_refusal : List Message → Bool
any_refusal [] = false
any_refusal (m ∷ ms) = is_refusal m || any_refusal ms

-- An error response says a code.
abbrev pub IsCoded : Message → Type 0
IsCoded m =
    is_refusal m ≡ true
    → IfOk (λ r. null (notice_or r.0).sqlstate ≡ false) (read_notice empty_notice m.unread)

noted-failed :
    (events : List Event) (e : DbError) → succeeded e ≡ false → succeeded (noted events e) ≡ false
unfolding noted succeeded client_error
noted-failed [] e h = h
noted-failed (unprocessed ∷ events) e h = noted-failed events _ refl
noted-failed (sent q ∷ events) e h = noted-failed events e h
noted-failed (failed ∷ events) e h = noted-failed events e h
noted-failed (handled ∷ events) e h = noted-failed events e h

on_error_response-failed :
    (d : Database) (m : Message)
    → IsCoded m
    → is_refusal m ≡ true
    → IfOk (λ e. has_failed e ≡ true) (on_error_response d m.unread)
unfolding on_error_response on_error_query
on_error_response-failed d m p t =
    IfOk-bind_if _ _ (read_notice empty_notice m.unread) _ (p t) (λ (notice, rest) q.
      let status = (has_error-error_response (notice_or notice) []).1 in
      record { held = rw (status, q) refl })

on_ready_for_query-failed :
    (d : Database) (m : Message)
    → has_failed d ≡ true
    → IfOk (λ e. has_failed e ≡ true) (on_ready_for_query d m.unread)
unfolding on_ready_for_query
on_ready_for_query-failed d m p = IfOk-bind _ (read_char m.unread) _ (λ (stat, rest).
    IfOk-bind _ (Session.on_ready_for_query d.client) _ (λ c.
      let kept = noted-failed (drop (length d.client.log) c.log) d.error (ground (arith, p)) in
      record { held = rw kept refl }))

module _ ⦃h : Host⦄ where
  on_message-refusal :
      (v : Services) (d : Database) (m : Message)
      → is_refusal m ≡ true
      → on_message v d m ≡ on_error_response d m.unread
  unfolding on_message
  on_message-refusal v d m t = let e : tag m ≡ b'E' = ground (arith, t) in rw e refl

  -- What a message does to the failure.
  on_message-failed :
      (v : Services) (d : Database) (m : Message)
      → IsBytes m.unread
      → IsCoded m
      → (has_failed d || is_refusal m) ≡ true
      → IfOk (λ e. has_failed e ≡ true) (on_message v d m)
  on_message-failed v d m b p q = elim (Bool-cases (is_refusal m)) [
    | inl t ↦ rw (on_message-refusal v d m t) (on_error_response-failed d m p t)
    | inr t ↦
        let failing : has_failed d ≡ true = ground (arith, q, t) in
        on_message-IfOk (λ e. has_failed e ≡ true) v d m
          (λ a.
            IfOk-map _ _ _ (λ e k. rw (k.1) failing) (on_authentication-Connects v d m.unread b))
          (λ a. record {
            quiet = λ e k. rw (k.1) failing;
            refused = λ r. let x : ⊥ = cc in absurd x;
            ready = on_ready_for_query-failed d m failing;
          })
  ]

  on_messages-failed :
      (v : Services) (d : Database) (ms : List Message)
      → AreBytes ms
      → All IsCoded ms
      → (has_failed d || any_refusal ms) ≡ true
      → IfOk (λ e. has_failed e ≡ true) (on_messages v d ms)
  unfolding on_messages
  on_messages-failed v d [] b p q = record { held = ground (arith, q) }
  on_messages-failed v d (m ∷ ms) b p q = elim (Bool-cases (has_failed d || is_refusal m)) [
    | inl t ↦
        IfOk-bind_if _ _ (on_message v d m) _ (on_message-failed v d m b.0 p.0 t)
          (λ e k. on_messages-failed v e ms b.1 p.1 (ground (arith, k)))
    | inr t ↦
        IfOk-bind _ (on_message v d m) _
          (λ e. on_messages-failed v e ms b.1 p.1 (ground (arith, q, t)))
  ]

  -- Whatever messages the server sends, of which each error response gives a code: once they are
  -- handled, the status of `await` is a failure if it would have been one before, or if there is an
  -- error response among them. No success of a later query takes the failure back.
  pub on_messages-has_failed :
      (v : Services) (d e : Database) (ms : List Message)
      → AreBytes ms
      → All IsCoded ms
      → (has_failed d || any_refusal ms) ≡ true
      → on_messages v d ms ≡ ok e
      → succeeded e.error ≡ false
  on_messages-has_failed v d e ms b p q r =
      let failing =
        (subst (IfOk (λ f. has_failed f ≡ true)) r (on_messages-failed v d ms b p q)).held in
      ground (arith, failing)
