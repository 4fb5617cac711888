-- ===== src/Login/Frames.antt =====
-- The bytes that start a session of pgsql.h.
use qbm_pgsql.Prelude.{
  ℕ, ◌+◌, ◌<◌, ◌≡◌, sym, ap, ◌∙◌, List, [], ◌∷◌, ◌++◌, length, codes, arith, append_assoc,
  append-nil, length-append,
}
use qbm_pgsql.Wire.{Host, big_endian, u32}
use qbm_pgsql.Message.{
  Message, message, append, buffer, write_char, write_string, write_sv, write_integer,
}
use qbm_pgsql.Message.Tag
use qbm_pgsql.Message.Laws.{frame, buffer-frame, append-empty}
use qbm_pgsql.Message.Writes.{
  append-append, write_string-append, write_string-message, write_integer-append,
}
use qbm_pgsql.Connect.{ConnectionOptions}
use qbm_pgsql.Login.{
  ClientOptions, protocol_version, write_options, client_first, startup_message, scram_answer,
}

-- A name and a value, each with its terminator.
abbrev pub pair_bytes : List ℕ → List ℕ → List ℕ
pair_bytes k v = (k ++ 0 ∷ []) ++ (v ++ 0 ∷ [])

abbrev pub options_bytes : ClientOptions → List ℕ
options_bytes [] = []
options_bytes ((k, v) ∷ rest) = pair_bytes k v ++ options_bytes rest

write_pair :
    (m : Message) (xs k v : List ℕ)
    → write_string (write_string (append m xs) k) v ≡ append m (xs ++ pair_bytes k v)
write_pair m xs k v =
    rw (write_string-append m xs k, write_string-append m (xs ++ (k ++ 0 ∷ [])) v)
      (ap (append m) (append_assoc xs (k ++ 0 ∷ []) (v ++ 0 ∷ [])))

write_options-append :
    (m : Message) (xs : List ℕ) (o : ClientOptions)
    → write_options (append m xs) o ≡ append m (xs ++ options_bytes o)
unfolding write_options
write_options-append m xs [] = ap (append m) (sym (append-nil xs))
write_options-append m xs ((k, v) ∷ rest) = rw (write_pair m xs k v) (
    write_options-append m (xs ++ pair_bytes k v) rest
    ∙ ap (append m) (append_assoc xs (pair_bytes k v) (options_bytes rest)))

-- The body of the start-up message.
abbrev pub startup_body : ConnectionOptions → ClientOptions → List ℕ
startup_body o client =
    big_endian 4 protocol_version
    ++ (pair_bytes (codes "user") o.user
        ++ (pair_bytes (codes "database") o.database ++ (options_bytes client ++ 0 ∷ [])))

module _ ⦃h : Host⦄ where
  write_integer-message :
      (t v : ℕ) → v < 4294967296 → write_integer (message t) v ≡ append (message t) (big_endian 4 v)
  write_integer-message t v p =
      ap (λ m. write_integer m v) (sym (append-empty (message t)))
      ∙ write_integer-append (message t) [] v p

  startup_message-append :
      (o : ConnectionOptions) (client : ClientOptions)
      → startup_message o client ≡ append (message Tag.empty) (startup_body o client)
  unfolding startup_message write_char
  startup_message-append o client =
      let m = message Tag.empty in
      let version = big_endian 4 protocol_version in
      let user = pair_bytes (codes "user") o.user in
      let database = pair_bytes (codes "database") o.database in
      rw
        (
          write_integer-message Tag.empty protocol_version (omega arith),
          write_pair m version (codes "user") o.user,
          write_pair m (version ++ user) (codes "database") o.database,
          write_options-append m ((version ++ user) ++ database) client,
          append-append m (((version ++ user) ++ database) ++ options_bytes client) (0 ∷ []),
        )
        (ap (append m) (simp append_assoc))

  -- The start-up message has no tag: its length, the version, the user, the database and the client
  -- options as terminated texts, and a last zero; under the limit of the length field.
  pub startup_message-frame :
      (o : ConnectionOptions) (client : ClientOptions)
      → 4 + length (startup_body o client) < 4294967296
      → buffer (startup_message o client)
        ≡ big_endian 4 (4 + length (startup_body o client)) ++ startup_body o client
  startup_message-frame o client p =
      ap buffer (startup_message-append o client) ∙ buffer-frame Tag.empty (startup_body o client) p

  abbrev pub scram_body : List ℕ → List ℕ
  scram_body first = (codes "SCRAM-SHA-256" ++ 0 ∷ []) ++ (big_endian 4 (length first) ++ first)

  -- The first answer of SCRAM names the mechanism and carries the client's first message under its
  -- length; under the limit of the length field.
  pub scram_answer-frame :
      (o : ConnectionOptions) (nonce : List ℕ)
      → 4 + length (scram_body (client_first o.user nonce)) < 4294967296
      → buffer (scram_answer o nonce)
        ≡ frame Tag.password_message (scram_body (client_first o.user nonce))
  unfolding scram_answer write_sv
  scram_answer-frame o nonce p =
      let first = client_first o.user nonce in
      let m = message Tag.password_message in
      let mechanism = codes "SCRAM-SHA-256" ++ 0 ∷ [] in
      let fits : length first < 4294967296 = omega (
        arith,
        length-append mechanism (big_endian 4 (length first) ++ first),
        length-append (big_endian 4 (length first)) first,
      ) in
      let e : u32 (length first) ≡ length first = omega arith in
      rw
        (
          e,
          write_string-message Tag.password_message (codes "SCRAM-SHA-256"),
          write_integer-append m mechanism (length first) fits,
          append-append m (mechanism ++ big_endian 4 (length first)) first,
          append_assoc mechanism (big_endian 4 (length first)) first,
        )
        (buffer-frame Tag.password_message (scram_body first) p)
