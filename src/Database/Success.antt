-- ===== src/Database/Success.antt =====
-- What the authentication messages of pgsql.h do to the connection of `Database`.
use qbm_pgsql.Prelude.{
  ℕ, ◌≡◌, refl, subst, Bool, ◌||◌, Option, none, some, List, [], ◌∷◌, ◌==◌, bytes_eq, take, ok,
  arith, codes,
}
use qbm_pgsql.Prelude.Outcomes.{IfOk, IfOk-bind, IfOk-bind_if, IfOk-if}
use qbm_pgsql.Wire.{Host, IsBytes, from_bytes, from_network}
use qbm_pgsql.Traits.{protocol_read, binary_reader_integer}
use qbm_pgsql.Unserializer
use qbm_pgsql.Message.{read_integer, read_string, read_bytes}
use qbm_pgsql.Attributes.{parse}
use qbm_pgsql.Decimal.{sto}
use qbm_pgsql.Login.Signature
use qbm_pgsql.Login.Signature.{text_or_empty, server_check_accepts}
use qbm_pgsql.Login.Proof.{entry, client_proof, prove}
use qbm_pgsql.Database.{Database, Services, authenticate, on_authentication, or_kept}

abbrev pub is_connected : Database → Bool
is_connected d = d.session.is_connected

-- A database that is connected as `d` is.
abbrev pub Same : Database → Database → Type 0
Same d e = is_connected e ≡ is_connected d

-- The body of a message starts with the number of success, 0 in four bytes.
abbrev pub is_success : List ℕ → Bool
is_success unread = bytes_eq (take 4 unread) (0 ∷ 0 ∷ 0 ∷ 0 ∷ [])

zero_bytes :
    (a b c d : ℕ) (s : List ℕ)
    → (from_bytes 0 (a ∷ b ∷ c ∷ d ∷ []) == 0) ≡ is_success (a ∷ b ∷ c ∷ d ∷ s)
unfolding from_bytes
zero_bytes a b c d s = ground arith

prove-Same :
    (v : Services) (d : Database) (nonce auth : List ℕ) (o : Option (List ℕ))
    → IfOk
        (λ (m, t). t.is_connected ≡ is_connected d)
        (prove v.crypto v.derivation nonce auth d.session o)
unfolding prove
prove-Same v d nonce auth none = record { held = tt }
prove-Same v d nonce auth (some salted) = record { held = refl }

module _ ⦃h : Host⦄ where
  read_integer_long :
      (a b c d : ℕ) (s : List ℕ)
      → IsBytes (a ∷ b ∷ c ∷ d ∷ [])
      → read_integer (a ∷ b ∷ c ∷ d ∷ s) ≡ ok (some (from_bytes 0 (a ∷ b ∷ c ∷ d ∷ [])), s)
  unfolding read_integer protocol_read binary_reader_integer Unserializer.read_integer from_network
  read_integer_long a b c d s p =
      ground (arith, h.from_big_endian-load 4 (a ∷ b ∷ c ∷ d ∷ []) refl p)

  -- The scheme is 0 exactly if the message says so; a message of fewer than four bytes has none.
  scheme-is_success :
      (s : List ℕ)
      → IsBytes s
      → IfOk (λ (n, r). (or_kept n 4294967295 == 0) ≡ is_success s) (read_integer s)
  unfolding read_integer protocol_read binary_reader_integer
  scheme-is_success [] p = record { held = refl }
  scheme-is_success (a ∷ []) p = record { held = ground arith }
  scheme-is_success (a ∷ b ∷ []) p = record { held = ground arith }
  scheme-is_success (a ∷ b ∷ c ∷ []) p = record { held = ground arith }
  scheme-is_success (a ∷ b ∷ c ∷ d ∷ s) (pa, (pb, (pc, (pd, p)))) =
      rw (read_integer_long a b c d s (pa, (pb, (pc, (pd, tt)))))
        (record { held = zero_bytes a b c d s })

  client_proof-Same :
      (v : Services) (d : Database) (s : List ℕ)
      → IfOk
          (λ (m, t). t.is_connected ≡ is_connected d)
          (client_proof v.same v.crypto v.derivation d.conn_opts d.nonce d.session s)
  unfolding client_proof
  client_proof-Same v d s = IfOk-bind _ (read_string s) _ (λ (text, rest).
      IfOk-bind _ (parse v.same (text_or_empty text)) _ (λ params.
        IfOk-bind _ (sto 2147483648 10 (entry v.same params (codes "i"))) _
          (λ iteration. prove-Same v d _ _ _)))

  server_check-Same :
      (v : Services) (d : Database) (s : List ℕ)
      → IfOk (λ t. t.is_connected ≡ is_connected d) (Signature.server_check v.crypto d.session s)
  server_check-Same v d s =
      rw ((server_check_accepts v.crypto d.session s).0) (record { held = refl })

  authenticate-Connects :
      (v : Services) (d : Database) (n : ℕ) (s : List ℕ)
      → IfOk
          (λ e. (is_connected e ≡ (is_connected d || n == 0)) × (e.error ≡ d.error))
          (authenticate v d n s)
  unfolding authenticate Signature.authenticated
  authenticate-Connects v d n s =
      IfOk-if _ (n == 0) _ _ (λ h. record { held = (ground (arith, h), refl) })
        (λ h.
          let kept : (is_connected d || n == 0) ≡ is_connected d = ground (arith, h) in
          rw kept (
            IfOk-if _ (n == 3) _ _ (λ h. record { held = (refl, refl) })
              (λ h.
                IfOk-if _ (n == 5) _ _
                  (λ h. IfOk-bind _ (read_bytes 4 s) _ (λ a. record { held = (refl, refl) }))
                  (λ h.
                    IfOk-if _ (n == 10) _ _ (λ h. record { held = (refl, refl) })
                      (λ h.
                        IfOk-if _ (n == 11) _ _
                          (λ h.
                            IfOk-bind_if _ _ _ _ (client_proof-Same v d s)
                              (λ a q. record { held = (q, refl) }))
                          (λ h.
                            IfOk-if _ (n == 12) _ _
                              (λ h.
                                IfOk-bind_if _ _ _ _ (server_check-Same v d s)
                                  (λ a q. record { held = (q, refl) }))
                              (λ h. record { held = tt })))))))

  pub on_authentication-Connects :
      (v : Services) (d : Database) (s : List ℕ)
      → IsBytes s
      → IfOk
          (λ e. (is_connected e ≡ (is_connected d || is_success s)) × (e.error ≡ d.error))
          (on_authentication v d s)
  unfolding on_authentication
  on_authentication-Connects v d s p =
      IfOk-bind_if _ _ (read_integer s) _ (scheme-is_success s p) (λ (n, rest) q.
        subst
          (λ b.
            IfOk (λ e. (is_connected e ≡ (is_connected d || b)) × (e.error ≡ d.error))
              (authenticate v d (or_kept n 4294967295) rest))
          q (authenticate-Connects v d (or_kept n 4294967295) rest))
