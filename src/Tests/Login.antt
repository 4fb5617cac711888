-- ===== src/Tests/Login.antt =====
-- The start of a session of pgsql.h on small inputs.
use qbm_pgsql.Prelude.{
  ℕ, ◌≡◌, some, refl, true, false, List, [], ◌∷◌, ◌++◌, codes, arith, ok, ◌>>=◌, bytes_eq,
}
use qbm_pgsql.Wire.Laws.{big_endian_host}
use qbm_pgsql.Message.{Message, buffer}
use qbm_pgsql.Message.Tag
use qbm_pgsql.Message.Laws.{frame}
use qbm_pgsql.Connect.{ConnectionOptions, no_options}
use qbm_pgsql.Login.{ClientOptions, startup_message, scram_answer, client_first}
use qbm_pgsql.Login.Signature.{Crypto, Session, server_check, authenticated, server_check_accepts}
use qbm_pgsql.Login.Proof.{Derivation, server_first, proof_base64, auth_message, client_proof}
use qbm_pgsql.Login.ServerFirst.{TellsApart}
use qbm_pgsql.Login.Verbatim.{client_proof-verbatim}

-- Stand-ins for the cryptography, which tell keys and texts apart.
abbrev crypto : Crypto
crypto = record { hmac_sha256 = λ key text. key ++ text; base64_encode = λ bytes. bytes }

abbrev session : Session
session = record { is_connected = false; password_salt = codes "k"; auth_message = codes "m" }

server_check_accepts_example :
    (server_check crypto session (codes "v=forged") ≡ ok session)
    × ((server_check crypto session (codes "v=forged") >>= λ t. ok (authenticated t).is_connected)
        ≡ ok true)
server_check_accepts_example = server_check_accepts crypto session (codes "v=forged")

abbrev ada : ConnectionOptions
ada = record no_options { user = codes "ada"; database = codes "d" }

abbrev client : ClientOptions
client = (codes "client_encoding", codes "UTF8") ∷ []

abbrev derivation : Derivation
derivation = record {
  base64_decode = λ text. text;
  pbkdf2 = λ password salt n. some (password ++ salt);
  sha256 = λ bytes. bytes;
  xor_bytes = λ a b. a ++ b;
}

apart : TellsApart bytes_eq
apart = record { r_r = refl; s_s = refl; i_i = refl; r_s = refl; r_i = refl; s_i = refl }

client_proof-verbatim_example :
    (m : Message) × (t : Session) × (bare : List ℕ) × (last : List ℕ) × (client_proof bytes_eq
        crypto derivation ada
        (codes "ab")
        session
        (server_first (codes "abc") (codes "c2E") 4096)
      ≡ ok (m, t))
    × (client_first (codes "ada") (codes "ab") ≡ codes "n,," ++ bare)
    × (t.auth_message
        ≡ bare
          ++ (codes "," ++ (server_first (codes "abc") (codes "c2E") 4096 ++ (codes "," ++ last))))
    × (buffer m
        ≡ frame Tag.password_message
            (last ++ (codes ",p=" ++ proof_base64 crypto derivation (codes "c2E") t.auth_message)))
    × (t.password_salt ≡ codes "c2E")
unfolding qbm_pgsql.Login.Proof.without_proof proof_base64 auth_message
client_proof-verbatim_example =
    client_proof-verbatim bytes_eq apart crypto derivation ada (codes "ab") session (codes "abc")
      (codes "c2E") (codes "c2E") 4096 (refl, (refl, (refl, tt)), omega arith)
      (refl, (refl, (refl, tt)), omega arith) (omega arith) refl (omega arith)
