-- ===== src/Login/Proof.antt =====
-- The client's proof of SCRAM in `on_authentication` of pgsql.h. The primitives of qb::crypto and
-- OpenSSL are parameters.
use qbm_pgsql.Prelude.{
  ℕ, Option, none, some, List, [], ◌∷◌, ◌++◌, Bool, if◌then◌else◌, codes, Result, ok, throws,
  runtime_error, ◌>>=◌,
}
use qbm_pgsql.Message.{Message, message, read_string, write_sv}
use qbm_pgsql.Message.Tag
use qbm_pgsql.Connect.{ConnectionOptions}
use qbm_pgsql.Attributes.{Dict, parse}
use qbm_pgsql.Decimal.{to_string, sto}
use qbm_pgsql.Login.Signature.{Crypto, Session, text_or_empty}

-- What the proof uses beside the `Crypto` of the signature. `pbkdf2` is PKCS5_PBKDF2_HMAC with
-- SHA-256 and 32 bytes, which may fail.
pub record Derivation : Type 0 where
  pub base64_decode : List ℕ → List ℕ
  pub pbkdf2 : List ℕ → List ℕ → ℕ → Option (List ℕ)
  pub sha256 : List ℕ → List ℕ
  pub xor_bytes : List ℕ → List ℕ → List ℕ

-- `params[name]`, which is empty where there is no entry.
abbrev pub entry : (List ℕ → List ℕ → Bool) → Dict → List ℕ → List ℕ
entry same [] name = []
entry same ((k, v) ∷ rest) name = if same k name then v else entry same rest name

unfoldable pub client_first_bare : List ℕ → List ℕ → List ℕ
client_first_bare user nonce = codes "n=" ++ (user ++ (codes ",r=" ++ nonce))

-- The server's message as the client writes it again.
unfoldable pub server_first : List ℕ → List ℕ → ℕ → List ℕ
unfolding to_string
server_first nonce salt iteration =
    codes "r="
    ++ (nonce ++ (codes ",s=" ++ (salt ++ (codes ",i=" ++ to_string 2147483648 iteration))))

unfoldable pub without_proof : List ℕ → List ℕ
without_proof nonce = codes "c=biws,r=" ++ nonce

unfoldable pub auth_message : List ℕ → List ℕ → List ℕ → List ℕ → ℕ → List ℕ
unfolding client_first_bare server_first without_proof
auth_message user client_nonce nonce salt iteration =
    client_first_bare user client_nonce
    ++ (codes "," ++ (server_first nonce salt iteration ++ (codes "," ++ without_proof nonce)))

-- The proof in base64, from the salted password and the authentication message.
unfoldable pub proof_base64 : Crypto → Derivation → List ℕ → List ℕ → List ℕ
proof_base64 c d salted auth =
    let client_key = c.hmac_sha256 salted (codes "Client Key") in
    c.base64_encode (d.xor_bytes client_key (c.hmac_sha256 (d.sha256 client_key) auth))

unfoldable pub final_message : List ℕ → List ℕ → Message
unfolding without_proof
final_message nonce proof =
    write_sv (message Tag.password_message) (without_proof nonce ++ (codes ",p=" ++ proof))

-- The message that is sent, and what the session keeps.
unfoldable pub prove :
    Crypto → Derivation → List ℕ → List ℕ → Session → Option (List ℕ) → Result (Message × Session)
unfolding proof_base64 final_message
prove c d nonce auth s none = throws runtime_error
prove c d nonce auth s (some salted) = ok (
  final_message nonce (proof_base64 c d salted auth),
  record s { auth_message = auth; password_salt = salted },
)

module _ (same : List ℕ → List ℕ → Bool) where
  unfoldable pub client_proof :
      Crypto
      → Derivation
      → ConnectionOptions
      → List ℕ
      → Session
      → List ℕ
      → Result (Message × Session)
  unfolding read_string parse sto auth_message prove
  client_proof c d o client_nonce s unread = do
    (text, rest) ← read_string unread
    params ← parse same (text_or_empty text)
    let nonce = entry same params (codes "r")
    let salt = entry same params (codes "s")
    iteration ← sto 2147483648 10 (entry same params (codes "i"))
    prove c d nonce (auth_message o.user client_nonce nonce salt iteration) s
        (d.pbkdf2 o.password (d.base64_decode salt) iteration)
