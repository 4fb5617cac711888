-- ===== src/Database/Routing.antt =====
-- The table of handlers of `Database` in pgsql.h: what holds after each handler holds after `on`.
use qbm_pgsql.Prelude.{ℕ, ◌≡◌, refl, true, false, List, ◌==◌, Result}
use qbm_pgsql.Prelude.Outcomes.{IfOk, IfOk-bind, IfOk-if, IfOk-elim, IfOk-map}
use qbm_pgsql.Wire.{Host}
use qbm_pgsql.Message.{Message, tag, message_length, read_integer, read_string}
use qbm_pgsql.Message.Tag
use qbm_pgsql.Row.{read_row}
use qbm_pgsql.Notice.{empty_notice, read_notice}
use qbm_pgsql.Database.{
  Database, Services, on_authentication, on_backend_key_data, on_row_description, on_data_row,
  on_command_complete, on_error_response, on_parameter_status, on_notice_response,
  on_ready_for_query, on_message, read_description,
}

-- A database that is connected as `d` is and has its error.
abbrev pub Quiet : Database → Database → Type 0
Quiet d e = (e.session.is_connected ≡ d.session.is_connected) × (e.error ≡ d.error)

module _ ⦃h : Host⦄ where
  on_backend_key_data-Quiet : (d : Database) (s : List ℕ) → IfOk (Quiet d) (on_backend_key_data d s)
  unfolding on_backend_key_data
  on_backend_key_data-Quiet d s = IfOk-bind _ (read_integer s) _ (λ (pid, rest).
      IfOk-bind _ (read_integer rest) _ (λ (secret, end). record { held = (refl, refl) }))

  on_row_description-Quiet : (d : Database) (s : List ℕ) → IfOk (Quiet d) (on_row_description d s)
  unfolding on_row_description
  on_row_description-Quiet d s =
      IfOk-bind _ (read_description s) _ (λ (fields, whole). record { held = (refl, refl) })

  on_data_row-Quiet : (d : Database) (len : ℕ) (s : List ℕ) → IfOk (Quiet d) (on_data_row d len s)
  unfolding on_data_row
  on_data_row-Quiet d len s = IfOk-bind _ (read_row len s) _ (λ (row, rest).
      IfOk-elim _ row _ _ (record { held = (refl, refl) }) (λ r. record { held = (refl, refl) }))

on_command_complete-Quiet : (d : Database) (s : List ℕ) → IfOk (Quiet d) (on_command_complete d s)
unfolding on_command_complete
on_command_complete-Quiet d s =
    IfOk-bind _ (read_string s) _ (λ (command_tag, rest). record { held = (refl, refl) })

on_parameter_status-Quiet : (d : Database) (s : List ℕ) → IfOk (Quiet d) (on_parameter_status d s)
unfolding on_parameter_status
on_parameter_status-Quiet d s = IfOk-bind _ (read_string s) _ (λ (key, rest).
    IfOk-bind _ (read_string rest) _ (λ (value, end). record { held = (refl, refl) }))

on_notice_response-Quiet : (d : Database) (s : List ℕ) → IfOk (Quiet d) (on_notice_response d s)
unfolding on_notice_response
on_notice_response-Quiet d s =
    IfOk-bind _ (read_notice empty_notice s) _ (λ (notice, rest). record { held = (refl, refl) })

-- What is asked of the handlers other than that of authentication: of six of them only that what is
-- quiet is well.
pub record Handles (P : Database → Type 0) (d : Database) (m : Message) : Type 0 where
  pub quiet : (e : Database) → Quiet d e → P e
  pub refused : (tag m == Tag.error_response) ≡ true → IfOk P (on_error_response d m.unread)
  pub ready : IfOk P (on_ready_for_query d m.unread)

module _ ⦃h : Host⦄ (P : Database → Type 0) (v : Services) (d : Database) (m : Message) where
  quietly : Handles P d m → (r : Result Database) → IfOk (Quiet d) r → IfOk P r
  quietly p r q = IfOk-map (Quiet d) P r p.quiet q

  pub on_message-IfOk :
      ((tag m == Tag.authentication) ≡ true → IfOk P (on_authentication v d m.unread))
      → ((tag m == Tag.authentication) ≡ false → Handles P d m)
      → IfOk P (on_message v d m)
  unfolding on_message
  on_message-IfOk a others = IfOk-if P (tag m == Tag.authentication) _ _ a (λ t.
      let p = others t in
      IfOk-if P (tag m == Tag.command_complete) _ _
        (λ t. quietly p _ (on_command_complete-Quiet d m.unread))
        (λ t.
          IfOk-if P (tag m == Tag.backend_key_data) _ _
            (λ t. quietly p _ (on_backend_key_data-Quiet d m.unread))
            (λ t. IfOk-if P (tag m == Tag.error_response) _ _ p.refused (λ t.
              IfOk-if P (tag m == Tag.parameter_status) _ _
                (λ t. quietly p _ (on_parameter_status-Quiet d m.unread))
                (λ t.
                  IfOk-if P (tag m == Tag.notice_response) _ _
                    (λ t. quietly p _ (on_notice_response-Quiet d m.unread))
                    (λ t.
                      IfOk-if P (tag m == Tag.ready_for_query) _ _ (λ t. p.ready)
                        (λ t.
                          IfOk-if P (tag m == Tag.row_description) _ _
                            (λ t. quietly p _ (on_row_description-Quiet d m.unread))
                            (λ t.
                              IfOk-if P (tag m == Tag.data_row) _ _
                                (λ t. quietly p _ (on_data_row-Quiet d (message_length m) m.unread))
                                (λ t. record { held = p.quiet d (refl, refl) })))))))))
