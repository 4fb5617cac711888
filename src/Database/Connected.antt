-- ===== src/Database/Connected.antt =====
-- What makes `Database` of pgsql.h connected.
use qbm_pgsql.Prelude.{
  ℕ, ◌≡◌, refl, subst, Bool, false, ◌&&◌, ◌||◌, List, [], ◌∷◌, ◌==◌, ok, All, arith,
}
use qbm_pgsql.Prelude.Outcomes.{IfOk, IfOk-bind, IfOk-bind_if, IfOk-map}
use qbm_pgsql.Wire.{Host, IsBytes}
use qbm_pgsql.Message.{Message, tag, read_char}
use qbm_pgsql.Message.Tag
use qbm_pgsql.Notice.{empty_notice, read_notice}
use qbm_pgsql.Transaction.Session
use qbm_pgsql.Database.{
  Database, Services, on_error_response, on_ready_for_query, on_message, on_messages,
  on_error_query,
}
use qbm_pgsql.Database.Routing.{on_message-IfOk}
use qbm_pgsql.Database.Success.{is_connected, Same, is_success, on_authentication-Connects}

-- An authentication message of success.
abbrev pub is_grant : Message → Bool
is_grant m = tag m == Tag.authentication && is_success m.unread

abbrev pub any_grant : List Message → Bool
any_grant [] = false
any_grant (m ∷ ms) = is_grant m || any_grant ms

abbrev pub AreBytes : List Message → Type 0
AreBytes = All (λ m. IsBytes m.unread)

on_error_response-Same : (d : Database) (s : List ℕ) → IfOk (Same d) (on_error_response d s)
unfolding on_error_response on_error_query
on_error_response-Same d s =
    IfOk-bind _ (read_notice empty_notice s) _ (λ (notice, rest). record { held = refl })

on_ready_for_query-Same : (d : Database) (s : List ℕ) → IfOk (Same d) (on_ready_for_query d s)
unfolding on_ready_for_query
on_ready_for_query-Same d s = IfOk-bind _ (read_char s) _ (λ (stat, rest).
    IfOk-bind _ (Session.on_ready_for_query d.client) _ (λ c. record { held = refl }))

module _ ⦃h : Host⦄ where
  pub on_message-Connects :
      (v : Services) (d : Database) (m : Message)
      → IsBytes m.unread
      → IfOk (λ e. is_connected e ≡ (is_connected d || is_grant m)) (on_message v d m)
  on_message-Connects v d m p =
      on_message-IfOk (λ e. is_connected e ≡ (is_connected d || is_grant m)) v d m
        (λ t.
          let e : is_grant m ≡ is_success m.unread = ground (arith, t) in
          rw e (IfOk-map _ _ _ (λ f q. q.0) (on_authentication-Connects v d m.unread p)))
        (λ t.
          let kept : (is_connected d || is_grant m) ≡ is_connected d = ground (arith, t) in
          rw kept (record {
            quiet = λ e q. q.0;
            refused = λ r. on_error_response-Same d m.unread;
            ready = on_ready_for_query-Same d m.unread;
          }))

  on_messages-Connects :
      (v : Services) (d : Database) (ms : List Message)
      → AreBytes ms
      → IfOk (λ e. is_connected e ≡ (is_connected d || any_grant ms)) (on_messages v d ms)
  unfolding on_messages
  on_messages-Connects v d [] p = record { held = ground arith }
  on_messages-Connects v d (m ∷ ms) (p, ps) =
      IfOk-bind_if _ _ (on_message v d m) _ (on_message-Connects v d m p) (λ e q.
        let same : (is_connected e || any_grant ms) ≡ (is_connected d || any_grant (m ∷ ms)) =
          rw q (ground arith) in
        subst (λ b. IfOk (λ f. is_connected f ≡ b) (on_messages v e ms)) same
          (on_messages-Connects v e ms ps))

  -- Whatever messages the server sends, in whatever order: once they are handled, the client is
  -- connected exactly if it was before, or if one of them is an authentication message that starts
  -- with the number of success. No answer to a password, no proof and no end of a query connects it,
  -- and no message of the server disconnects it.
  pub on_messages-is_connected :
      (v : Services) (d e : Database) (ms : List Message)
      → AreBytes ms
      → on_messages v d ms ≡ ok e
      → e.session.is_connected ≡ (d.session.is_connected || any_grant ms)
  on_messages-is_connected v d e ms p q =
      (subst (IfOk (λ f. is_connected f ≡ (is_connected d || any_grant ms))) q
        (on_messages-Connects v d ms p)).held
