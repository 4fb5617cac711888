-- ===== src/Message/Writes.antt =====
-- The writes of src/protocol.cpp as bytes behind those of a message.
use qbm_pgsql.Prelude.{ℕ, ◌<◌, ◌≡◌, ◌∙◌, List, [], ◌∷◌, ◌++◌, append_assoc}
use qbm_pgsql.Wire.{Host, big_endian}
use qbm_pgsql.Wire.Laws.{network_bytes-eq}
use qbm_pgsql.Message.{Message, message, append, write_string, write_smallint, write_integer}

pub append-append : (m : Message) (xs ys : List ℕ) → append (append m xs) ys ≡ append m (xs ++ ys)
unfolding append
append-append m xs ys = rw (append_assoc m.payload xs ys)

pub write_string-append :
    (m : Message) (xs s : List ℕ) → write_string (append m xs) s ≡ append m (xs ++ (s ++ 0 ∷ []))
unfolding write_string
write_string-append m xs s =
    append-append (append m xs) s (0 ∷ []) ∙ append-append m xs (s ++ 0 ∷ [])

pub write_string-message :
    (t : ℕ) (s : List ℕ) → write_string (message t) s ≡ append (message t) (s ++ 0 ∷ [])
unfolding write_string
write_string-message t s = append-append (message t) s (0 ∷ [])

module _ ⦃h : Host⦄ where
  pub write_smallint-append :
      (m : Message) (xs : List ℕ) (v : ℕ)
      → v < 65536
      → write_smallint (append m xs) v ≡ append m (xs ++ big_endian 2 v)
  unfolding write_smallint
  write_smallint-append m xs v p = rw (network_bytes-eq 2 v p) (append-append m xs (big_endian 2 v))

  pub write_integer-append :
      (m : Message) (xs : List ℕ) (v : ℕ)
      → v < 4294967296
      → write_integer (append m xs) v ≡ append m (xs ++ big_endian 4 v)
  unfolding write_integer
  write_integer-append m xs v p = rw (network_bytes-eq 4 v p) (append-append m xs (big_endian 4 v))
