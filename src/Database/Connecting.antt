-- ===== src/Database/Connecting.antt =====
-- `connect` of pgsql.h. What the sockets answer, and what each round of the event loop brings, come
-- from the framework and the server, and are arguments.
pub mod Granted
use qbm_pgsql.Prelude.{
  ℕ, Bool, true, false, not, ◌&&◌, Option, none, some, List, [], ◌∷◌, ◌++◌, ◌==◌, if◌then◌else◌,
  Result, ok, ◌>>=◌, codes,
}
use qbm_pgsql.Wire.{Host, network_bytes}
use qbm_pgsql.Message.{Message}
use qbm_pgsql.Errors.{text_error}
use qbm_pgsql.Database.{
  Database, Services, on_message, on_disconnected, start, waits_for_connection,
}

-- `tcp_connect` and `transport_connect` are the numbers that the calls of `connect` give, `sent` that
-- of `send`, and `response` is the byte that `recv` gives, if it gives one.
pub record Network : Type 0 where
  pub tcp_connect : ℕ
  pub is_secure : Bool
  pub sent : ℕ
  pub response : Option ℕ
  pub transport_connect : ℕ

-- The eight bytes that `send` is given: the length 8 and the code 0x04D2162F.
unfoldable pub ssl_request : ⦃h : Host⦄ → List ℕ
ssl_request = network_bytes 4 8 ++ network_bytes 4 80877103

-- The answer to the request, and whether `connect` goes on after it.
unfoldable pub accepts : Network → ℕ → Bool
accepts n response =
    if response == b'S' then not (n.transport_connect == 0) else not (response == b'N')

unfoldable pub negotiates : Network → Bool
unfolding accepts
negotiates n =
    if n.is_secure
    then (if n.sent == 8
        then elim n.response [ none ↦ false | some response ↦ accepts n response ]
        else false)
    else true

-- What a round of the event loop brings.
pub data Occurrence : Type 0 where
  message : Message → Occurrence
  disconnected : Occurrence

-- What `connect` returns, if it does.
abbrev pub answer : Bool × Database → Option Bool × Database
answer (ended, d) = (if ended then some d.session.is_connected else none, d)

-- The error is reset.
abbrev pub unknown : Database → Database
unknown d = record d { error = text_error (codes "unknown error") }

module _ ⦃h : Host⦄ where
  unfoldable pub run_once : Services → Database → List Occurrence → Result Database
  unfolding on_message on_disconnected
  run_once v d [] = ok d
  run_once v d (message m ∷ rest) = on_message v d m >>= λ e. run_once v e rest
  run_once v d (disconnected ∷ rest) = run_once v (on_disconnected d) rest

  -- The loop: whether it ends in the rounds that are given.
  unfoldable pub wait : Services → Database → List (List Occurrence) → Result (Bool × Database)
  unfolding run_once waits_for_connection
  wait v d [] = ok (not (waits_for_connection d), d)
  wait v d (round ∷ rounds) =
      if waits_for_connection d then (run_once v d round >>= λ e. wait v e rounds) else ok (true, d)

  -- `connect` of a client that is not connected.
  unfoldable pub establish :
      Services → Network → Database → List (List Occurrence) → Result (Option Bool × Database)
  unfolding negotiates wait start
  establish v n d rounds =
      if n.tcp_connect == 0
      then (if negotiates n
          then (wait v (start d) rounds >>= λ r. ok (answer r))
          else ok (some false, unknown d))
      else ok (some false, unknown d)

  unfoldable pub connect :
      Services → Network → Database → List (List Occurrence) → Result (Option Bool × Database)
  unfolding establish
  connect v n d rounds =
      if d.session.is_connected then ok (some true, d) else establish v n d rounds
