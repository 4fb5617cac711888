-- ===== src/Query.antt =====
-- src/queries.h, with the printing of transaction modes of src/common.cpp: the queries, the store
-- of prepared statements, and the message that each query sends.
pub mod Storage
pub mod Wire
pub mod Execute
use qbm_pgsql.Prelude.{
  ℕ, zero, suc, ◌+◌, Bool, true, false, not, ◌||◌, ◌&&◌, Option, none, some, List, [], ◌∷◌, ◌++◌,
  ltb, leb, ◌==◌, if◌then◌else◌, length, take, drop, null, bytes_eq, codes, Result, ok, throws,
  undefined, out_of_range, ◌>>=◌,
}
use qbm_pgsql.Wire.{Host, from_network, u16}
use qbm_pgsql.Message.{
  Message, message, append, write_char, write_string, write_smallint, write_integer, pack,
  FieldDescription,
}
use qbm_pgsql.Message.Tag
use qbm_pgsql.Params.{Param, serialize_params, cleared}

pub data IsolationLevel : Type 0 where
  read_committed repeatable_read serializable : IsolationLevel

-- Both `operator<<`. The text of a level, and the clauses of a mode.
unfoldable pub level_text : IsolationLevel → List ℕ
level_text read_committed = codes "read committed"
level_text repeatable_read = codes "repeatable read"
level_text serializable = codes "serializable"

pub record TransactionMode : Type 0 where
  pub isolation : IsolationLevel
  pub read_only : Bool
  pub deferrable : Bool

abbrev is_default : IsolationLevel → Bool
is_default read_committed = true
is_default repeatable_read = false
is_default serializable = false

abbrev comma : Bool → List ℕ
comma need_comma = if need_comma then codes "," else []

unfoldable pub mode_text : TransactionMode → List ℕ
unfolding level_text
mode_text mode =
    let leveled = not (is_default mode.isolation) in
    (if leveled then codes " ISOLATION LEVEL " ++ level_text mode.isolation else [])
    ++ ((if mode.read_only then comma leveled ++ codes " READ ONLY" else [])
        ++ (if mode.deferrable
            then comma (leveled || mode.read_only) ++ codes " DEFERRABLE"
            else []))

pub record PreparedQuery : Type 0 where
  pub name : List ℕ
  pub expression : List ℕ
  pub param_types : List ℕ
  pub row_description : List FieldDescription

-- The map from names to prepared queries.
abbrev pub PreparedStorage : Type 0
PreparedStorage = List (List ℕ × PreparedQuery)

unfoldable pub find : List ℕ → PreparedStorage → Option PreparedQuery
find name [] = none
find name ((n, q) ∷ rest) = if bytes_eq n name then some q else find name rest

abbrev is_some : Option PreparedQuery → Bool
is_some none = false
is_some (some q) = true

unfoldable pub has : PreparedStorage → List ℕ → Bool
unfolding find
has storage name = is_some (find name storage)

-- `emplace` keeps an entry that is there; the entry under the name is returned.
unfoldable pub push : PreparedStorage → PreparedQuery → PreparedStorage × PreparedQuery
unfolding find
push storage query = elim (find query.name storage) [
  | none ↦ ((query.name, query) ∷ storage, query)
  | some old ↦ (storage, old)
]

-- `at`, which throws on a missing name.
unfoldable pub get : PreparedStorage → List ℕ → Result PreparedQuery
unfolding find
get storage name = elim (find name storage) [ none ↦ throws out_of_range | some q ↦ ok q ]

-- The serialized parameters, led by their count.
pub record QueryParams : Type 0 where
  pub params : List ℕ
  pub param_types : List ℕ

pub data SqlQuery : Type 0 where
  begin : TransactionMode → SqlQuery
  commit rollback : SqlQuery
  savepoint release_savepoint rollback_savepoint : List ℕ → SqlQuery
  simple : List ℕ → SqlQuery
  parse : PreparedQuery → SqlQuery
  execute : List ℕ → QueryParams → SqlQuery

-- `is_valid`: only the execution of a statement that is not registered is refused.
unfoldable pub is_valid : PreparedStorage → SqlQuery → Bool
unfolding has
is_valid storage (execute name params) = has storage name
is_valid storage _ = true

module _ ⦃h : Host⦄ where
  -- The constructor of `QueryParams`, for any number of arguments.
  unfoldable pub query_params : List Param → QueryParams
  unfolding serialize_params
  query_params [] = record { params = []; param_types = [] }
  query_params (a ∷ args) =
      let serializer = serialize_params cleared (a ∷ args) in
      record { params = serializer.params_buffer; param_types = serializer.param_types }

  unfoldable pub param_count : QueryParams → ℕ
  param_count p = if leb 2 (length p.params) then from_network 2 (take 2 p.params) else 0

  -- The texts of the simple queries.
  query_message : List ℕ → Message
  query_message sql = write_string (message Tag.query) sql

  pub write_integers : Message → List ℕ → Message
  write_integers m [] = m
  write_integers m (v ∷ vs) = write_integers (write_integer m v) vs

  unfoldable pub parse_message : PreparedQuery → Message
  unfolding write_integers
  parse_message query =
      let cmd =
        write_integers
          (write_smallint
            (write_string (write_string (message Tag.parse) query.name) query.expression)
            (u16 (length query.param_types)))
          query.param_types in
      let describe = write_string (write_char (message Tag.describe) b'S') query.name in
      pack (pack cmd describe) (message Tag.sync)

  -- The values go in as they were serialized, without their count; a count is signed, and values
  -- are written only under one above 0.
  unfoldable pub values_of : QueryParams → List ℕ
  unfolding param_count
  values_of p =
      if not (null p.params)
        && (ltb 0 (param_count p) && (ltb (param_count p) 32768 && ltb 2 (length p.params)))
      then drop 2 p.params
      else []

  unfoldable pub bind_message : PreparedQuery → QueryParams → Message
  unfolding param_count
  bind_message query p =
      let head = write_string (write_string (message Tag.bind) []) query.name in
      let formats = write_smallint (write_smallint head 1) 1 in
      let cmd = write_smallint (append (write_smallint formats (param_count p)) (values_of p)) 0 in
      let run = write_integer (write_string (message Tag.execute) []) 0 in
      pack (pack cmd run) (message Tag.sync)

  -- `get()`.
  unfoldable pub message_of : PreparedStorage → SqlQuery → Result Message
  unfolding query_message parse_message bind_message mode_text get
  message_of storage (begin mode) = ok (query_message (codes "BEGIN " ++ mode_text mode))
  message_of storage commit = ok (query_message (codes "commit"))
  message_of storage rollback = ok (query_message (codes "rollback"))
  message_of storage (savepoint name) = ok (query_message (codes "savepoint " ++ name))
  message_of storage (release_savepoint name) =
      ok (query_message (codes "release savepoint " ++ name))
  message_of storage (rollback_savepoint name) =
      ok (query_message (codes "rollback to savepoint " ++ name))
  message_of storage (simple expression) = ok (query_message expression)
  message_of storage (parse query) = ok (parse_message query)
  message_of storage (execute name p) = do query ← get storage name; ok (bind_message query p)
