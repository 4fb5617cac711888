-- ===== src/Login.antt =====
-- The start of a session in `Database` of pgsql.h: `create_startup_message` and the first answers
-- of `on_authentication`. The digest, the digits and the random text of qb::crypto are parameters.
pub mod Frames
pub mod Signature
pub mod Proof
pub mod ServerFirst
pub mod Verbatim
use qbm_pgsql.Prelude.{ℕ, List, [], ◌∷◌, ◌++◌, length, codes}
use qbm_pgsql.Wire.{Host, u32}
use qbm_pgsql.Message.{Message, message, write_char, write_string, write_sv, write_integer}
use qbm_pgsql.Message.Tag
use qbm_pgsql.Connect.{ConnectionOptions}

-- `PROTOCOL_VERSION`, 3.0.
abbrev pub protocol_version : ℕ
protocol_version = 196608

abbrev pub ClientOptions : Type 0
ClientOptions = List (List ℕ × List ℕ)

unfoldable pub write_options : Message → ClientOptions → Message
write_options m [] = m
write_options m ((k, v) ∷ rest) = write_options (write_string (write_string m k) v) rest

-- `"n,,n=" + user + ",r=" + nonce`
abbrev pub client_first : List ℕ → List ℕ → List ℕ
client_first user nonce = codes "n,,n=" ++ (user ++ (codes ",r=" ++ nonce))

-- The digest that the server asks for by its salt.
abbrev pub md5_digest : (List ℕ → List ℕ) → (List ℕ → List ℕ) → List ℕ → List ℕ → List ℕ → List ℕ
md5_digest md5 to_hex_string user password salt =
    codes "md5" ++ to_hex_string (md5 (to_hex_string (md5 (password ++ user)) ++ salt))

module _ ⦃h : Host⦄ where
  unfoldable pub create_startup_message : ConnectionOptions → ClientOptions → Message → Message
  unfolding write_options
  create_startup_message o client m =
      let named =
        write_string (write_string (write_integer m protocol_version) (codes "user")) o.user in
      let based = write_string (write_string named (codes "database")) o.database in
      write_char (write_options based client) 0

  -- `send_startup_message`.
  unfoldable pub startup_message : ConnectionOptions → ClientOptions → Message
  unfolding create_startup_message
  startup_message o client = create_startup_message o client (message Tag.empty)

  -- The answers to `Cleartext`, `MD5Password` and `SCRAM_SHA256`.
  unfoldable pub cleartext_answer : ConnectionOptions → Message
  cleartext_answer o = write_string (message Tag.password_message) o.password

  unfoldable pub md5_answer :
      (List ℕ → List ℕ) → (List ℕ → List ℕ) → ConnectionOptions → List ℕ → Message
  md5_answer md5 to_hex_string o salt =
      write_string (message Tag.password_message)
        (md5_digest md5 to_hex_string o.user o.password salt)

  unfoldable pub scram_answer : ConnectionOptions → List ℕ → Message
  scram_answer o nonce =
      let first = client_first o.user nonce in
      let mechanism = write_string (message Tag.password_message) (codes "SCRAM-SHA-256") in
      write_sv (write_integer mechanism (u32 (length first))) first
