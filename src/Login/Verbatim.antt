-- ===== src/Login/Verbatim.antt =====
-- The authentication message of SCRAM in pgsql.h against what the two sides have sent.
use qbm_pgsql.Prelude.{ℕ, ◌+◌, ◌<◌, ◌≡◌, refl, ap, ◌∙◌, Bool, some, List, ◌++◌, length, codes, ok}
use qbm_pgsql.Wire.{Host}
use qbm_pgsql.Message.{Message, buffer, write_sv}
use qbm_pgsql.Message.Tag
use qbm_pgsql.Message.Laws.{frame, buffer-frame}
use qbm_pgsql.Connect.{ConnectionOptions}
use qbm_pgsql.Attributes.RoundTrip.{IsValue}
use qbm_pgsql.Decimal.{sto}
use qbm_pgsql.Login.{client_first}
use qbm_pgsql.Login.Signature.{Crypto, Session}
use qbm_pgsql.Login.Proof.{
  Derivation, client_first_bare, server_first, without_proof, auth_message, proof_base64,
  final_message, prove, client_proof,
}
use qbm_pgsql.Login.ServerFirst.{
  TellsApart, iterations, entries, parse-server_first, read_string-server_first, sto-iterations,
}

-- The body of the answer.
abbrev pub answer_body : Crypto → Derivation → List ℕ → List ℕ → List ℕ → List ℕ
answer_body c d salted nonce auth =
    without_proof nonce ++ (codes ",p=" ++ proof_base64 c d salted auth)

module _ ⦃h : Host⦄ (same : List ℕ → List ℕ → Bool) (apart : TellsApart same) where
  final_message-frame :
      (nonce proof : List ℕ)
      → 4 + length (without_proof nonce ++ (codes ",p=" ++ proof)) < 4294967296
      → buffer (final_message nonce proof)
        ≡ frame Tag.password_message (without_proof nonce ++ (codes ",p=" ++ proof))
  unfolding final_message write_sv
  final_message-frame nonce proof p =
      buffer-frame Tag.password_message (without_proof nonce ++ (codes ",p=" ++ proof)) p

  client_proof-prove :
      (c : Crypto) (d : Derivation) (o : ConnectionOptions) (client_nonce : List ℕ) (s : Session)
      (nonce salt : List ℕ) (n : ℕ)
      → IsValue nonce
      → IsValue salt
      → n < 2147483648
      → client_proof same c d o client_nonce s (server_first nonce salt n)
        ≡ prove c d nonce
            (auth_message o.user client_nonce nonce salt n)
            s
            (d.pbkdf2 o.password (d.base64_decode salt) n)
  unfolding client_proof
  client_proof-prove c d o client_nonce s nonce salt n a b p =
      let (found_r, found_s, found_i) = entries same apart nonce salt (iterations n) in
      let n_read : sto 2147483648 10 (iterations n) ≡ ok n = sto-iterations n p in
      rw
        (
          read_string-server_first nonce salt n a b,
          parse-server_first same apart nonce salt n a b p,
          found_r,
          found_s,
          found_i,
          n_read,
        )
        refl

  -- The proof of SCRAM, where the server's message is `r=`, the nonce, `,s=`, the salt, `,i=` and
  -- the iterations, fewer than 2 ^ 31, the nonce and the salt are values as attributes allow them,
  -- the keys of the map tell the three names apart and the derivation succeeds: the
  -- authentication message is the client's first message without its header, the server's message
  -- and the client's last message without the proof, with commas between them, each as it was sent;
  -- the answer is that last message with the proof over this text, under the limit of the length
  -- field; and the salted password is kept.
  pub client_proof-verbatim :
      (c : Crypto) (d : Derivation) (o : ConnectionOptions) (client_nonce : List ℕ) (s : Session)
      (nonce salt salted : List ℕ) (n : ℕ)
      → IsValue nonce
      → IsValue salt
      → n < 2147483648
      → d.pbkdf2 o.password (d.base64_decode salt) n ≡ some salted
      → 4 + length (answer_body c d salted nonce (auth_message o.user client_nonce nonce salt n))
        < 4294967296
      → (m : Message) × (t : Session) × (bare : List ℕ) × (last : List ℕ) × (client_proof same c d o
            client_nonce s
            (server_first nonce salt n)
          ≡ ok (m, t))
        × (client_first o.user client_nonce ≡ codes "n,," ++ bare)
        × (t.auth_message
            ≡ bare ++ (codes "," ++ (server_first nonce salt n ++ (codes "," ++ last))))
        × (buffer m
            ≡ frame Tag.password_message
                (last ++ (codes ",p=" ++ proof_base64 c d salted t.auth_message)))
        × (t.password_salt ≡ salted)
  unfolding prove auth_message
  client_proof-verbatim c d o client_nonce s nonce salt salted n a b p e x =
      let auth = auth_message o.user client_nonce nonce salt n in
      (
        final_message nonce (proof_base64 c d salted auth),
        record s { auth_message = auth; password_salt = salted },
        client_first_bare o.user client_nonce,
        without_proof nonce,
        client_proof-prove c d o client_nonce s nonce salt n a b p ∙ ap (prove c d nonce auth s) e,
        refl,
        refl,
        final_message-frame nonce (proof_base64 c d salted auth) x,
        refl,
      )
