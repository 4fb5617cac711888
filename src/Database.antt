-- ===== src/Database.antt =====
-- `Database` of pgsql.h as a whole: its state, the handlers of the server's messages and the table
-- that routes them.
pub mod Routing
pub mod Success
pub mod Connected
pub mod Failed
pub mod Connecting
pub mod Refused
pub mod Described
pub mod Collect
use qbm_pgsql.Prelude.{
  ℕ, zero, suc, Bool, true, false, Option, none, some, List, [], ◌∷◌, ◌++◌, leb, ◌==◌, bytes_eq,
  if◌then◌else◌, not, length, drop, codes, Result, ok, throws, undefined, runtime_error,
  length_error, ◌>>=◌,
}
use qbm_pgsql.Wire.{Host}
use qbm_pgsql.Message.{
  Message, FieldDescription, tag, message_length, read_smallint, read_integer, read_string,
  read_bytes, read_char, read_field,
}
use qbm_pgsql.Message.Tag
use qbm_pgsql.Row.{read_row}
use qbm_pgsql.Notice.{NoticeMessage, empty_notice, read_notice}
use qbm_pgsql.Errors.{DbError, text_error, client_error, error_response, has_error}
use qbm_pgsql.Connect.{ConnectionOptions}
use qbm_pgsql.Transaction.{Event, sent, failed, handled, unprocessed}
use qbm_pgsql.Transaction.Popping.{Client}
use qbm_pgsql.Transaction.Engine
use qbm_pgsql.Transaction.Session
use qbm_pgsql.Login.{ClientOptions, cleartext_answer, md5_answer, scram_answer, startup_message}
use qbm_pgsql.Login.Signature.{Crypto, text_or_empty, server_check, authenticated}
use qbm_pgsql.Login.Signature
use qbm_pgsql.Login.Proof.{Derivation, client_proof}

-- The members; `session` has those of authentication, `client` those of the commands. `outgoing`
-- is what was sent beside the queries.
pub record Database : Type 0 where
  pub conn_opts : ConnectionOptions
  pub client_opts : ClientOptions
  pub server_pid : ℕ
  pub server_secret : ℕ
  pub nonce : List ℕ
  pub session : Signature.Session
  pub error : DbError
  pub client : Client
  pub outgoing : List Message

-- What authentication takes from outside: the digests, the keys of the attributes, and the random
-- text of 32 digits.
pub record Services : Type 0 where
  pub crypto : Crypto
  pub derivation : Derivation
  pub md5 : List ℕ → List ℕ
  pub to_hex_string : List ℕ → List ℕ
  pub same : List ℕ → List ℕ → Bool
  pub random_string : List ℕ

abbrev pub send : Database → Message → Database
send d m = record d { outgoing = d.outgoing ++ m ∷ [] }

-- `process_query` sets the error at a query that is not valid: the error after the events seen.
unfoldable pub noted : List Event → DbError → DbError
noted [] e = e
noted (unprocessed ∷ rest) e =
    noted rest (client_error (codes "query couldn't be processed check logs for more infos"))
noted (sent q ∷ rest) e = noted rest e
noted (failed ∷ rest) e = noted rest e
noted (handled ∷ rest) e = noted rest e

abbrev pub with_client : Database → Client → Database
with_client d c = record d { client = c; error = noted (drop (length d.client.log) c.log) d.error }

-- `client_opts_[key] = value`, in a map that is ordered by its keys.
abbrev pub before : List ℕ → List ℕ → Bool
before [] [] = false
before [] (b ∷ t) = true
before (a ∷ s) [] = false
before (a ∷ s) (b ∷ t) = if a == b then before s t else leb a b

unfoldable pub insert_or_assign : List ℕ → List ℕ → ClientOptions → ClientOptions
insert_or_assign key value [] = (key, value) ∷ []
insert_or_assign key value ((k, v) ∷ rest) =
    if bytes_eq k key
    then (k, value) ∷ rest
    else if before key k
    then (key, value) ∷ (k, v) ∷ rest
    else (k, v) ∷ insert_or_assign key value rest

abbrev pub or_kept : Option ℕ → ℕ → ℕ
or_kept none old = old
or_kept (some v) old = v

module _ ⦃h : Host⦄ where
  -- The cases of `on_authentication` by the number of the scheme.
  unfoldable pub authenticate : Services → Database → ℕ → List ℕ → Result Database
  authenticate v d auth_state rest =
      if auth_state == 0
      then ok (record d { session = authenticated d.session })
      else if auth_state == 3
      then ok (send d (cleartext_answer d.conn_opts))
      else if auth_state == 5
      then (do
        (salt, end) ← read_bytes 4 rest
        ok (send d (md5_answer v.md5 v.to_hex_string d.conn_opts (text_or_empty salt))))
      else if auth_state == 10
      then ok
          (record (send d (scram_answer d.conn_opts v.random_string)) { nonce = v.random_string })
      else if auth_state == 11
      then (do
        (answer, session) ←
            client_proof v.same v.crypto v.derivation d.conn_opts d.nonce d.session rest
        ok (record (send d answer) { session = session }))
      else if auth_state == 12
      then (do session ← server_check v.crypto d.session rest; ok (record d { session = session }))
      else throws runtime_error

  -- The state is -1 where the message has none.
  unfoldable pub on_authentication : Services → Database → List ℕ → Result Database
  unfolding authenticate
  on_authentication v d unread = do
    (auth_state, rest) ← read_integer unread
    authenticate v d (or_kept auth_state 4294967295) rest

  unfoldable pub on_backend_key_data : Database → List ℕ → Result Database
  on_backend_key_data d unread = do
    (pid, rest) ← read_integer unread
    (secret, end) ← read_integer rest
    ok (record d {
      server_pid = or_kept pid d.server_pid;
      server_secret = or_kept secret d.server_secret;
    })

  -- The loop over the descriptions: those read, and whether all were.
  unfoldable pub read_fields :
      ℕ → List FieldDescription → List ℕ → Result (List FieldDescription × Bool)
  read_fields zero fields unread = ok (fields, true)
  read_fields (suc n) fields unread = read_field unread >>= λ (fd, rest). elim fd [
    | none ↦ ok (fields, false)
    | some field ↦ read_fields n (fields ++ field ∷ []) rest
  ]

  -- The count is not set before it is read; a negative one is too long to reserve.
  unfoldable pub read_description : List ℕ → Result (List FieldDescription × Bool)
  unfolding read_fields
  read_description unread = read_smallint unread >>= λ (col_cnt, rest). elim col_cnt [
    | none ↦ undefined
    | some count ↦ if leb 32768 count then throws length_error else read_fields count [] rest
  ]

  unfoldable pub on_row_description : Database → List ℕ → Result Database
  unfolding read_description
  on_row_description d unread = do
    (fields, whole) ← read_description unread
    ok (record d { client = Session.on_row_description fields whole d.client })

  unfoldable pub on_data_row : Database → ℕ → List ℕ → Result Database
  on_data_row d len unread = read_row len unread >>= λ (row, rest). elim row [
    | none ↦ ok (record d { client = Session.on_data_row false d.client })
    | some r ↦ ok (record d { client = Session.on_data_row true d.client })
  ]

unfoldable pub on_command_complete : Database → List ℕ → Result Database
on_command_complete d unread = do (command_tag, rest) ← read_string unread; ok d

unfoldable pub on_error_query : DbError → Database → Database
on_error_query err d = record d { error = err; client = Engine.on_error_query d.client }

abbrev pub notice_or : Option NoticeMessage → NoticeMessage
notice_or none = empty_notice
notice_or (some notice) = notice

unfoldable pub on_error_response : Database → List ℕ → Result Database
unfolding on_error_query
on_error_response d unread = do
  (notice, rest) ← read_notice empty_notice unread
  ok (on_error_query (error_response (notice_or notice)) d)

unfoldable pub on_parameter_status : Database → List ℕ → Result Database
unfolding insert_or_assign
on_parameter_status d unread = do
  (key, rest) ← read_string unread
  (value, end) ← read_string rest
  ok (record d {
    client_opts = insert_or_assign (text_or_empty key) (text_or_empty value) d.client_opts;
  })

unfoldable pub on_notice_response : Database → List ℕ → Result Database
on_notice_response d unread = do (notice, rest) ← read_notice empty_notice unread; ok d

-- The status is read between the end of the query and the search for the next, and only logged.
unfoldable pub on_ready_for_query : Database → List ℕ → Result Database
unfolding noted
on_ready_for_query d unread = do
  (stat, rest) ← read_char unread
  c ← Session.on_ready_for_query d.client
  ok (with_client d c)

-- `on(message)` by `routes_`; five handlers, and the one for tags with no route, only log.
module _ ⦃h : Host⦄ where
  unfoldable pub on_message : Services → Database → Message → Result Database
  unfolding on_authentication on_row_description on_data_row on_error_response on_ready_for_query
  on_message v d m =
      let t = tag m in
      if t == Tag.authentication
      then on_authentication v d m.unread
      else if t == Tag.command_complete
      then on_command_complete d m.unread
      else if t == Tag.backend_key_data
      then on_backend_key_data d m.unread
      else if t == Tag.error_response
      then on_error_response d m.unread
      else if t == Tag.parameter_status
      then on_parameter_status d m.unread
      else if t == Tag.notice_response
      then on_notice_response d m.unread
      else if t == Tag.ready_for_query
      then on_ready_for_query d m.unread
      else if t == Tag.row_description
      then on_row_description d m.unread
      else if t == Tag.data_row
      then on_data_row d (message_length m) m.unread
      else ok d

  -- The messages of the server, in order.
  unfoldable pub on_messages : Services → Database → List Message → Result Database
  unfolding on_message
  on_messages v d [] = ok d
  on_messages v d (m ∷ rest) = on_message v d m >>= λ e. on_messages v e rest

-- The end of the connection.
unfoldable pub on_disconnected : Database → Database
unfolding on_error_query
on_disconnected d =
    if d.session.is_connected
    then on_error_query (client_error (codes "database disconnected"))
        (record d { session = record d.session { is_connected = false } })
    else d

-- `connect` before its loop: the error is reset and the start-up message sent.
module _ ⦃h : Host⦄ where
  unfoldable pub start : Database → Database
  start d =
      send (record d { error = text_error (codes "unknown error") })
        (startup_message d.conn_opts d.client_opts)

-- The condition of the loop.
unfoldable pub waits_for_connection : Database → Bool
waits_for_connection d = if d.session.is_connected then false else not (has_error d.error)
