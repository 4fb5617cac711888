-- ===== src/Query/Wire.antt =====
-- The bytes that the queries of src/queries.h put on the wire.
use qbm_pgsql.Prelude.{
  ℕ, zero, suc, ◌+◌, ◌<◌, ◌≡◌, refl, sym, ap, ◌∙◌, false, List, [], ◌∷◌, ◌++◌, length,
  length-append, null, arith, append-nil, append_assoc, take-append, drop-append, All,
}
use qbm_pgsql.Wire.{Host, big_endian, u16}
use qbm_pgsql.Wire.Laws.{length-big_endian, from_network-big_endian}
use qbm_pgsql.Message.{
  Message, message, append, write_char, write_string, write_smallint, write_integer, pack, buffer,
}
use qbm_pgsql.Message.Laws.{
  frame, buffer-frame, buffer-pack, message-nonempty, append-nonempty, pack-nonempty, append-empty,
}
use qbm_pgsql.Message.Tag
use qbm_pgsql.Query.{
  PreparedQuery, QueryParams, parse_message, bind_message, write_integers, param_count, values_of,
}
use qbm_pgsql.Message.Writes.{
  append-append, write_string-append, write_string-message, write_smallint-append,
  write_integer-append,
}

abbrev pub integers : List ℕ → List ℕ
integers [] = []
integers (v ∷ vs) = big_endian 4 v ++ integers vs

null-length : (xs : List ℕ) → 0 < length xs → null xs ≡ false
null-length [] p = absurd (omega arith)
null-length (x ∷ xs) p = refl

module _ ⦃h : Host⦄ where
  write_integers-append :
      (m : Message) (vs xs : List ℕ)
      → All (λ v. v < 4294967296) vs
      → write_integers (append m xs) vs ≡ append m (xs ++ integers vs)
  unfolding write_integers
  write_integers-append m [] xs p = ap (append m) (sym (append-nil xs))
  write_integers-append m (v ∷ vs) xs p = rw (write_integer-append m xs v p.0) (
      write_integers-append m vs (xs ++ big_endian 4 v) p.1
      ∙ ap (append m) (append_assoc xs (big_endian 4 v) (integers vs)))

  -- Three messages packed together, the last without a body.
  buffer-pack_frames :
      (t u v : ℕ) (xs ys : List ℕ)
      → 4 + length xs < 4294967296
      → 4 + length ys < 4294967296
      → buffer (pack (pack (append (message t) xs) (append (message u) ys)) (message v))
        ≡ frame t xs ++ (frame u ys ++ frame v [])
  buffer-pack_frames t u v xs ys p q =
      let m = append (message t) xs in
      let k = append (message u) ys in
      let ne = append-nonempty (message t) xs (message-nonempty t) in
      buffer-pack (pack m k) (message v) (pack-nonempty m k ne)
      ∙ (rw
          (
            buffer-pack m k ne,
            buffer-frame t xs p,
            buffer-frame u ys q,
            ← append-empty (message v),
            buffer-frame v [] (omega arith),
          )
          (append_assoc (frame t xs) (frame u ys) (frame v [])))

  -- The body of a parse message.
  abbrev pub parse_body : PreparedQuery → List ℕ
  parse_body q =
      ((q.name ++ 0 ∷ []) ++ (q.expression ++ 0 ∷ []))
      ++ (big_endian 2 (length q.param_types) ++ integers q.param_types)

  parse_command-append :
      (q : PreparedQuery)
      → length q.param_types < 65536
      → All (λ v. v < 4294967296) q.param_types
      → write_integers
          (write_smallint
            (write_string (write_string (message Tag.parse) q.name) q.expression)
            (u16 (length q.param_types)))
          q.param_types
        ≡ append (message Tag.parse) (parse_body q)
  parse_command-append q n a =
      let texts = (q.name ++ 0 ∷ []) ++ (q.expression ++ 0 ∷ []) in
      let count = big_endian 2 (length q.param_types) in
      let e : u16 (length q.param_types) ≡ length q.param_types = omega arith in
      rw (
        e,
        write_string-message Tag.parse q.name,
        write_string-append (message Tag.parse) (q.name ++ 0 ∷ []) q.expression,
        write_smallint-append (message Tag.parse) texts (length q.param_types) n,
        write_integers-append (message Tag.parse) q.param_types (texts ++ count) a,
        append_assoc texts count (integers q.param_types),
      )

  describe_command-append :
      (name : List ℕ)
      → write_string (write_char (message Tag.describe) b'S') name
        ≡ append (message Tag.describe) (b'S' ∷ (name ++ 0 ∷ []))
  unfolding write_char
  describe_command-append name = write_string-append (message Tag.describe) (b'S' ∷ []) name

  -- A statement with fewer than 2 ^ 16 parameter types that are 32-bit numbers, in a message under
  -- the limit of the length field, is sent as a Parse, a Describe of the statement and a Sync.
  pub parse_message-frames :
      (q : PreparedQuery)
      → length q.param_types < 65536
      → All (λ v. v < 4294967296) q.param_types
      → 4 + length (parse_body q) < 4294967296
      → 6 + length q.name < 4294967296
      → buffer (parse_message q)
        ≡ frame Tag.parse (parse_body q)
          ++ (frame Tag.describe (b'S' ∷ (q.name ++ 0 ∷ [])) ++ frame Tag.sync [])
  unfolding parse_message
  parse_message-frames q n a p d =
      rw (parse_command-append q n a, describe_command-append q.name)
        (buffer-pack_frames Tag.parse Tag.describe Tag.sync (parse_body q)
          (b'S' ∷ (q.name ++ 0 ∷ [])) p (omega (arith, length-append q.name (0 ∷ []))))

  abbrev pub bind_body : List ℕ → ℕ → List ℕ → List ℕ
  bind_body name n values =
      (0 ∷ (name ++ 0 ∷ []))
      ++ ((big_endian 2 1 ++ big_endian 2 1) ++ (big_endian 2 n ++ (values ++ big_endian 2 0)))

  bind_command-append :
      (name values : List ℕ) (n : ℕ)
      → n < 65536
      → write_smallint
          (append
            (write_smallint
              (write_smallint
                (write_smallint (write_string (write_string (message Tag.bind) []) name) 1)
                1)
              n)
            values)
          0
        ≡ append (message Tag.bind) (bind_body name n values)
  bind_command-append name values n p =
      let b = message Tag.bind in
      let one = big_endian 2 1 in
      let hd = 0 ∷ (name ++ 0 ∷ []) in
      rw
        (
          write_string-message Tag.bind [],
          write_string-append b (0 ∷ []) name,
          write_smallint-append b hd 1 (omega arith),
          write_smallint-append b (hd ++ one) 1 (omega arith),
          write_smallint-append b ((hd ++ one) ++ one) n p,
          append-append b (((hd ++ one) ++ one) ++ big_endian 2 n) values,
          write_smallint-append b ((((hd ++ one) ++ one) ++ big_endian 2 n) ++ values) 0
              (omega arith),
        )
        (ap (append b) (simp append_assoc))

  execute_command-append :
      write_integer (write_string (message Tag.execute) []) 0
      ≡ append (message Tag.execute) (0 ∷ big_endian 4 0)
  execute_command-append =
      rw (write_string-message Tag.execute [])
        (write_integer-append (message Tag.execute) (0 ∷ []) 0 (omega arith))

  param_count-big_endian :
      (ps : QueryParams) (n : ℕ) (values : List ℕ)
      → ps.params ≡ big_endian 2 n ++ values
      → n < 65536
      → param_count ps ≡ n
  unfolding param_count
  param_count-big_endian ps n values e p = ground (
    arith,
    e,
    length-append (big_endian 2 n) values,
    length-big_endian 2 n,
    take-append 2 (big_endian 2 n) values (length-big_endian 2 n),
    from_network-big_endian 2 n,
  )

  values_of-big_endian :
      (ps : QueryParams) (n : ℕ) (values : List ℕ)
      → ps.params ≡ big_endian 2 n ++ values
      → n < 32768
      → (n ≡ 0 → values ≡ [])
      → values_of ps ≡ values
  unfolding values_of
  values_of-big_endian ps zero values e p z =
      ground (arith, z refl, e, param_count-big_endian ps zero values e (omega arith))
  values_of-big_endian ps (suc n) [] e p z = ground (
    arith,
    e,
    param_count-big_endian ps (suc n) [] e (omega arith),
    length-append (big_endian 2 (suc n)) [],
    length-big_endian 2 (suc n),
  )
  values_of-big_endian ps (suc n) (x ∷ v) e p z = ground (
    arith,
    e,
    param_count-big_endian ps (suc n) (x ∷ v) e (omega arith),
    length-append (big_endian 2 (suc n)) (x ∷ v),
    length-big_endian 2 (suc n),
    drop-append 2 (big_endian 2 (suc n)) (x ∷ v) (length-big_endian 2 (suc n)),
    null-length ps.params,
  )

  -- Parameters led by a count under 2 ^ 15, with no values where it is 0, are bound to the unnamed
  -- portal in the binary format, for results in the binary format, and the portal is executed
  -- without a limit of rows.
  pub bind_message-frames :
      (q : PreparedQuery) (ps : QueryParams) (n : ℕ) (values : List ℕ)
      → ps.params ≡ big_endian 2 n ++ values
      → n < 32768
      → (n ≡ 0 → values ≡ [])
      → 4 + length (bind_body q.name n values) < 4294967296
      → buffer (bind_message q ps)
        ≡ frame Tag.bind (bind_body q.name n values)
          ++ (frame Tag.execute (0 ∷ big_endian 4 0) ++ frame Tag.sync [])
  unfolding bind_message
  bind_message-frames q ps n values e p z d =
      rw
        (
          param_count-big_endian ps n values e (omega arith),
          values_of-big_endian ps n values e p z,
          bind_command-append q.name values n (omega arith),
          execute_command-append,
        )
        (buffer-pack_frames Tag.bind Tag.execute Tag.sync (bind_body q.name n values)
          (0 ∷ big_endian 4 0) d (omega (arith, length-big_endian 4 0)))
