-- ===== src/Tests/Connection.antt =====
-- `connect` and the errors of `Database` of pgsql.h on small inputs.
use qbm_pgsql.Prelude.{
  ◌≡◌, refl, true, false, ◌||◌, none, some, List, [], ◌∷◌, ◌++◌, codes, ok, arith, All,
}
use qbm_pgsql.Wire.{big_endian, network_bytes}
use qbm_pgsql.Wire.Laws.{big_endian_host}
use qbm_pgsql.Message.{Message}
use qbm_pgsql.Message.Tag
use qbm_pgsql.Notice.{empty_notice}
use qbm_pgsql.Notice.Laws.{fields_bytes}
use qbm_pgsql.Errors.{succeeded, error_response}
use qbm_pgsql.Connect.{no_options}
use qbm_pgsql.Login.{startup_message}
use qbm_pgsql.Database.{Database, on_messages}
use qbm_pgsql.Database.Failed.{has_failed, any_refusal, IsCoded, on_messages-has_failed}
use qbm_pgsql.Database.Connecting.{Network, Occurrence, message, ssl_request, negotiates}
use qbm_pgsql.Tests.Database.{services, fresh, message_of}

requested : ssl_request ≡ 0 ∷ 0 ∷ 0 ∷ 8 ∷ 4 ∷ 210 ∷ 22 ∷ 47 ∷ []
unfolding ssl_request network_bytes big_endian
requested = refl

abbrev plain : Network
plain = record {
  tcp_connect = 0;
  is_secure = false;
  sent = 0;
  response = none;
  transport_connect = 0;
}

-- The server answers the request for TLS with an error, and the client goes on without it.
abbrev refused_tls : Network
refused_tls = record plain { is_secure = true; sent = 8; response = some b'E' }

goes_on_unsecured : negotiates refused_tls ≡ true
unfolding negotiates
goes_on_unsecured = refl

abbrev rounds : List (List Occurrence)
rounds = [] ∷ (message (message_of Tag.authentication (0 ∷ 0 ∷ 0 ∷ 0 ∷ [])) ∷ []) ∷ []

abbrev started : Database
started = record fresh {
  session = record fresh.session { is_connected = true };
  outgoing = startup_message no_options [] ∷ [];
}

-- A refusal, and then the end of a query that succeeds.
abbrev refusal : Message
refusal = message_of Tag.error_response (fields_bytes ((b'C', codes "42P01") ∷ []) [])

abbrev answers : List Message
answers = refusal ∷ message_of Tag.command_complete (codes "SELECT 1" ++ 0 ∷ []) ∷ []

abbrev failing : Database
failing = record fresh { error = error_response (record empty_notice { sqlstate = codes "42P01" }) }

answers_handled : on_messages services fresh answers ≡ ok failing
unfolding on_messages qbm_pgsql.Message.tag qbm_pgsql.Notice.read_notice
    qbm_pgsql.Database.on_command_complete qbm_pgsql.Transaction.Engine.on_error_query
answers_handled = refl

answers-IsCoded : All IsCoded answers
unfolding qbm_pgsql.Message.tag qbm_pgsql.Notice.read_notice
answers-IsCoded = ((λ t. record { held = refl }), ((λ t. let x : ⊥ = cc in absurd x), tt))

answers_refused : (has_failed fresh || any_refusal answers) ≡ true
unfolding qbm_pgsql.Message.tag succeeded qbm_pgsql.Errors.text_error
answers_refused = refl

on_messages-has_failed_example : succeeded failing.error ≡ false
on_messages-has_failed_example =
    on_messages-has_failed services fresh failing answers (ground arith) answers-IsCoded
      answers_refused answers_handled
