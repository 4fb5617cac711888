-- ===== src/Connect/RoundTrip.antt =====
-- Connection strings of src/common.cpp, written and read back.
use qbm_pgsql.Prelude.{
  ℕ, ◌≡◌, refl, ap, ◌∙◌, Bool, true, false, not, ◌||◌, List, [], ◌∷◌, ◌++◌, ◌==◌, ok, ◌>>=◌, All,
  arith, append_assoc, append-nil,
}
use qbm_pgsql.Connect.{
  ConnectionOptions, Parser, State, is_space, push_back, step, read_all, parse, no_options,
}

-- The characters that a state takes into the current text.
abbrev pub takes : State → ℕ → Bool
takes State.alias c = not (c == b'=' || (c == b':' || is_space c))
takes State.schema c = not (c == b'=' || (c == b':' || is_space c))
takes State.user c = not (c == b'=' || (c == b':' || (c == b'@' || (c == b'[' || is_space c))))
takes State.password c = not (c == b'=' || (c == b'@' || (c == b'[' || is_space c)))
takes State.url c = not (c == b'=' || (c == b'[' || is_space c))
takes State.database c = not (c == b'=' || (c == b']' || is_space c))
takes State.schema_slash1 c = false
takes State.schema_slash2 c = false
takes State.done c = false

abbrev pub Takes : State → List ℕ → Type 0
Takes s = All (λ c. takes s c ≡ true)

step-takes : (s : State) (p : Parser) (c : ℕ) → takes s c ≡ true → step s p c ≡ ok (push_back p c)
unfolding step
step-takes State.alias p c h = ground arith
step-takes State.schema p c h = ground arith
step-takes State.user p c h = ground arith
step-takes State.password p c h = ground arith
step-takes State.url p c h = ground arith
step-takes State.database p c h = ground arith
step-takes State.schema_slash1 p c h = let x : ⊥ = cc in absurd x
step-takes State.schema_slash2 p c h = let x : ⊥ = cc in absurd x
step-takes State.done p c h = let x : ⊥ = cc in absurd x

read_all-Takes :
    (t rest : List ℕ) (p : Parser)
    → Takes p.state t
    → read_all (t ++ rest) p ≡ read_all rest (record p { current = p.current ++ t })
unfolding read_all
read_all-Takes [] rest p h = simp append-nil
read_all-Takes (c ∷ t) rest p h =
    rw (step-takes p.state p c h.0) (read_all-Takes t rest (push_back p c) h.1 ∙ simp append_assoc)

-- A text that a state takes, and the character that ends it.
read_all-step :
    (t rest : List ℕ) (c : ℕ) (p q : Parser)
    → Takes p.state t
    → step p.state (record p { current = p.current ++ t }) c ≡ ok q
    → read_all (t ++ c ∷ rest) p ≡ read_all rest q
unfolding read_all
read_all-step t rest c p q h e = read_all-Takes t (c ∷ rest) p h ∙ ap (λ r. r >>= read_all rest) e

-- A parser that starts a text.
abbrev starting : State → ConnectionOptions → Parser
starting s o = record { state = s; current = []; opts = o }

-- The string that names these options, with or without an alias and a user.
abbrev pub to_string : ConnectionOptions → List ℕ
to_string o =
    o.alias
    ++ b'='
      ∷ (o.schema
          ++ b':'
            ∷ b'/'
            ∷ b'/'
            ∷ (o.user ++ b':' ∷ (o.password ++ b'@' ∷ (o.uri ++ b'[' ∷ (o.database ++ b']' ∷ [])))))

pub record IsPlain (o : ConnectionOptions) : Type 0 where
  pub plain_alias : Takes State.alias o.alias
  pub plain_schema : Takes State.schema o.schema
  pub plain_user : Takes State.user o.user
  pub plain_password : Takes State.password o.password
  pub plain_uri : Takes State.url o.uri
  pub plain_database : Takes State.database o.database

abbrev after_schema : List ℕ → List ℕ → ConnectionOptions
after_schema a c = record no_options { alias = a; schema = c }

abbrev pub slashes : List ℕ → List ℕ
slashes s = b':' ∷ b'/' ∷ b'/' ∷ s

-- The schema and the slashes behind it, read from the start of a string or behind an alias.
read_all-schema :
    (schema rest a : List ℕ)
    → Takes State.schema schema
    → read_all (schema ++ slashes rest) (starting State.schema (record no_options { alias = a }))
      ≡ read_all rest (starting State.user (after_schema a schema))
unfolding step
read_all-schema schema rest a h =
    read_all-step schema (b'/' ∷ b'/' ∷ rest) b':'
      (starting State.schema (record no_options { alias = a }))
      (starting State.schema_slash1 (after_schema a schema)) h refl
    ∙ (read_all-step [] (b'/' ∷ rest) b'/' (starting State.schema_slash1 (after_schema a schema))
          (starting State.schema_slash2 (after_schema a schema)) tt refl
        ∙ read_all-step [] rest b'/' (starting State.schema_slash2 (after_schema a schema))
            (starting State.user (after_schema a schema)) tt refl)

-- Options whose texts have none of the characters that the parser gives a meaning in their place,
-- and no space, are read back from the string of all of them.
pub parse-to_string : (o : ConnectionOptions) → IsPlain o → parse (to_string o) ≡ ok o
unfolding parse step
parse-to_string o v =
    let named = after_schema o.alias o.schema in
    let with_user = record named { user = o.user } in
    let with_password = record with_user { password = o.password } in
    let with_uri = record with_password { uri = o.uri } in
    let database_part = o.database ++ b']' ∷ [] in
    let uri_part = o.uri ++ b'[' ∷ database_part in
    let password_part = o.password ++ b'@' ∷ uri_part in
    let user_part = o.user ++ b':' ∷ password_part in
    ap (λ r. r >>= λ p. ok p.opts)
      (read_all-step o.alias (o.schema ++ slashes user_part) b'=' (starting State.alias no_options)
          (starting State.schema (record no_options { alias = o.alias })) v.plain_alias refl
        ∙ (read_all-schema o.schema user_part o.alias v.plain_schema
            ∙ (read_all-step o.user password_part b':' (starting State.user named)
                  (starting State.password with_user) v.plain_user refl
                ∙ (read_all-step o.password uri_part b'@' (starting State.password with_user)
                      (starting State.url with_password) v.plain_password refl
                    ∙ (read_all-step o.uri database_part b'[' (starting State.url with_password)
                          (starting State.database with_uri) v.plain_uri refl
                        ∙ read_all-step o.database [] b']' (starting State.database with_uri)
                            (starting State.done (record with_uri { database = o.database }))
                            v.plain_database refl)))))

-- Without an alias and a user, the host, the port and the database are read from the string
-- `schema://host:port[database]`.
pub parse-host_and_port :
    (schema host port database : List ℕ)
    → Takes State.alias schema
    → Takes State.user host
    → Takes State.password port
    → Takes State.database database
    → parse (schema ++ slashes (host ++ b':' ∷ (port ++ b'[' ∷ (database ++ b']' ∷ []))))
      ≡ ok (record no_options { schema = schema; uri = host ++ b':' ∷ port; database = database })
unfolding parse step
parse-host_and_port schema host port database a u w d =
    let named = after_schema [] schema in
    let with_host = record named { user = host } in
    let with_uri = record named { uri = host ++ b':' ∷ port } in
    let database_part = database ++ b']' ∷ [] in
    let port_part = port ++ b'[' ∷ database_part in
    let host_part = host ++ b':' ∷ port_part in
    ap (λ r. r >>= λ p. ok p.opts)
      (read_all-step schema (b'/' ∷ b'/' ∷ host_part) b':' (starting State.alias no_options)
          (starting State.schema_slash1 named) a refl
        ∙ (read_all-step [] (b'/' ∷ host_part) b'/' (starting State.schema_slash1 named)
              (starting State.schema_slash2 named) tt refl
            ∙ (read_all-step [] host_part b'/' (starting State.schema_slash2 named)
                  (starting State.user named) tt refl
                ∙ (read_all-step host port_part b':' (starting State.user named)
                      (starting State.password with_host) u refl
                    ∙ (read_all-step port database_part b'[' (starting State.password with_host)
                          (starting State.database with_uri) w refl
                        ∙ read_all-step database [] b']' (starting State.database with_uri)
                            (starting State.done (record with_uri { database = database })) d
                            refl)))))
