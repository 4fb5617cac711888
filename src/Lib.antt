-- ===== src/Lib.antt =====
-- The PostgreSQL client module of the qb framework: what it sends, what it reads, and how it drives
-- transactions.
--
-- The program. A `Database` (pgsql.h) is a connection and the root of a tree of commands. The
-- protocol class `pgsql` cuts the server's bytes into messages; `Database` routes each message to a
-- handler, which reads it with `message` and `protocol_read`, and tells the current command of rows,
-- errors and ends of queries. A program calls `begin`, `savepoint`, `execute`, `prepare`, `then`
-- and `error` (src/transaction.inl), which push commands (src/commands.h); `process_query` finds
-- the next query and sends the message that it makes (src/queries.h), with its parameters
-- serialized (src/param_serializer.h).
--
-- The files. A byte string is a list of numbers below 256, an integer of w bits its bit pattern.
-- - Prelude: the names shared; Result (Prelude/Results) has the C++ exceptions as `throws`, and
--   `undefined` where C++ leaves the behaviour undefined.
-- - Wire: network byte order. How an integer lies in memory and what qb/system/endian.h makes of it
--   is the instance argument `Host`, with its documented laws; Wire.Laws has a concrete host.
-- - Reader, Traits: a reader takes the bytes from a cursor on and gives the value it assigned, if
--   any, and the bytes left (src/protocol_io_traits.h); Traits.Numbers has floats and printed numbers,
--   Traits.Uuids the UUIDs.
-- - Unserializer: src/param_unserializer.cpp.
-- - Message: the class `message` of src/protocol.cpp; `payload` is its buffer, `unread` what lies
--   behind its read cursor. Message.Tag has the tags of src/protocol.h.
-- - Row, Notice: `row_data` and `notice_message` of src/protocol.cpp with their reads.
-- - Framing: `getMessageSize` and `onMessage` of pgsql.h; the transport's buffer is a list.
-- - Params: `ParamSerializer` of src/param_serializer.h, with src/type_mapping.h and the
--   `to_binary` of src/type_converter.h. Params.Adders: its functions for single types, and the
--   traits of src/param_serializer.tpp, which nothing uses.
-- - PgTypes: the names of the types of src/pg_types.cpp.
-- - Query: src/queries.h: the prepared statements, `QueryParams`, and `get` and `is_valid` of each
--   query, with the transaction modes of src/common.cpp.
-- - Transaction: the commands of src/commands.h. A callback is a `Script` of the calls that it makes
--   on the transaction it is given, and may end in an exception. Transaction.Popping completes
--   commands (src/transaction.cpp), Transaction.Engine is `process_query` with the handlers of
--   queries, Transaction.Session the calls and messages from outside, Transaction.Await the loop of
--   `await`. The tree is kept as the path from the current command to the root: a command in a
--   queue has not begun and has no commands.
-- - Connect: `connect_string_parser` of src/common.cpp.
-- - Attributes: `parse_header_attributes` of pgsql.h; which names are one key of qb's
--   case-insensitive map is a parameter.
-- - Login: the start-up message, the first answers to requests for authentication, the proof of
--   SCRAM (Login.Proof) and the check of the server's signature (Login.Signature); the digests and
--   the random text of qb::crypto and the key derivation of OpenSSL are parameters.
-- - Resultset: `result_impl` of src/result_impl.cpp, and the access and the iterators of
--   src/resultset.cpp; an iterator is its index.
-- - SqlState: the two tables of src/sqlstates.cpp; a table is in several lists, by class. Errors:
--   the error objects of src/error.cpp, with `has_error` and the success of a status.
-- - Decimal, Convert: `to_text`, `from_text` and `from_binary` of src/type_converter.h, with the
--   printing and reading of integers of the C++ library. Special: its UUIDs, timestamps and JSON.
--   Special.Texts: the texts of timestamps with a zone, with `gmtime` and `timegm` as a parameter;
--   Special.Texts.Plain: the reading of those without a zone; Special.Texts.Local: local time, where
--   the regular expression is written out as a parser.
--   Convert.Floats: the texts of floats, with the digits of the C++ library as a parameter.
-- - Database: the state of `Database`, the handlers of the server's messages, `routes_` and `on`;
--   `noted` follows the error that `process_query` sets. Database.Collect: the commands of
--   src/commands.h that collect rows, on the same messages. Database.Connecting: `connect`, where
--   the answers of the sockets and what each round of the event loop brings are arguments.
--   Database.Routing: what holds after each handler holds after `on`.
-- - Field: `field::as` of src/resultset.h and `row::to` of src/resultset.inl; Field.To has
--   `field::to`, Field.Reader the `FieldReader` of src/field_reader.h.
-- - Tests: runs on small inputs.
--
-- Fuel. The read of a notice has one round more than there are bytes, and each round takes a byte.
-- The loop that pops commands has as many rounds as there are parents. `process_query` has one
-- round more than the client has weight (Transaction.Session): each round ends a command or takes
-- off a query, and what a handler may push is counted with it.
-- A number of 64 bits is printed with fuel for 20 digits, as many as it can have.
--
-- Not modelled. Sockets, TLS, the event loop and the pipes are the qb framework's; logging has no
-- effect here. The writing of timestamps without a zone, which goes
-- through floating point, is left out, as are the JSON form of a result, texts read
-- from files and a callback's use of a transaction other than its own.
-- FieldHandler and src/tuple_converter.h call functions that are declared nowhere.
mod Prelude
pub mod Wire
pub mod Reader
pub mod Unserializer
pub mod Traits
pub mod Message
pub mod Row
pub mod Notice
pub mod Framing
pub mod Params
pub mod PgTypes
pub mod Query
pub mod Transaction
pub mod Connect
pub mod Attributes
pub mod Login
pub mod SqlState
pub mod Database
pub mod Decimal
pub mod Convert
pub mod Special
pub mod Field
pub mod Errors
pub mod Resultset
mod Tests
