-- ===== src/Tests/Database.antt =====
-- The handlers of `Database` of pgsql.h on small inputs.
use qbm_pgsql.Prelude.{
  ℕ, ◌+◌, ◌≡◌, ◌↔◌, refl, true, false, ◌||◌, some, List, [], ◌∷◌, ◌++◌, length, map, codes,
  bytes_eq, ok, arith, All, ◌>>=◌, Option, get_elem?, ◌≤◌, ◌<◌,
}
use qbm_pgsql.Wire.{big_endian}
use qbm_pgsql.Wire.Laws.{big_endian_host}
use qbm_pgsql.Message.{Message, FieldDescription}
use qbm_pgsql.Message.Tag
use qbm_pgsql.Message.Reads.{IsField}
use qbm_pgsql.Notice.Laws.{fields_bytes}
use qbm_pgsql.SqlState.Laws.{Listed}
use qbm_pgsql.Errors.{text_error}
use qbm_pgsql.Connect.{no_options}
use qbm_pgsql.Transaction.{Script, prepare_command}
use qbm_pgsql.Transaction.Session.{idle}
use qbm_pgsql.Database.{
  Database, Services, on_messages, on_error_response, on_disconnected, waits_for_connection,
  authenticate,
}
use qbm_pgsql.Database.Connected.{any_grant, on_messages-is_connected}
use qbm_pgsql.Database.Refused.{on_error_response-waits_for_connection}
use qbm_pgsql.Database.Described.{with_kind}
use qbm_pgsql.Message.Reads.{NoNul}
use qbm_pgsql.Query.{PreparedQuery, get}
use qbm_pgsql.Convert.{ValueType, Value}
use qbm_pgsql.Resultset.{ResultImpl, size}
use qbm_pgsql.Field.{row_to}
use qbm_pgsql.Field.Sent.{sent_row, IsCell}
use qbm_pgsql.Field.Rows.{up_to_null, type_or}
use qbm_pgsql.Database.Collect.{result_query, query_prepared, no_results, results_of, collect_all}
use qbm_pgsql.Database.Collect.Results.{
  Fits, description, row, columns, row_to-collect_all, row_to-query_prepared,
}
use qbm_pgsql.Tests.Field.{described, fields, ann, bob, ann_small, bob_small}

abbrev pub services : Services
services = record {
  crypto = record { hmac_sha256 = λ key text. key ++ text; base64_encode = λ bytes. bytes };
  derivation = record {
    base64_decode = λ text. text;
    pbkdf2 = λ password salt n. some (password ++ salt);
    sha256 = λ bytes. bytes;
    xor_bytes = λ a b. a ++ b;
  };
  md5 = λ bytes. bytes;
  to_hex_string = λ bytes. bytes;
  same = bytes_eq;
  random_string = codes "ab";
}

abbrev pub fresh : Database
fresh = record {
  conn_opts = no_options;
  client_opts = [];
  server_pid = 0;
  server_secret = 0;
  nonce = [];
  session = record { is_connected = false; password_salt = []; auth_message = [] };
  error = text_error (codes "unknown error");
  client = idle [];
  outgoing = [];
}

abbrev pub message_of : ℕ → List ℕ → Message
message_of tag body = record {
  payload = tag ∷ big_endian 4 (4 + length body) ++ body;
  unread = body;
  packed = false;
}

abbrev pub greeting : List Message
greeting =
    message_of Tag.authentication (0 ∷ 0 ∷ 0 ∷ 0 ∷ [])
    ∷ message_of Tag.parameter_status (codes "a" ++ 0 ∷ codes "b" ++ 0 ∷ [])
    ∷ []

abbrev pub greeted : Database
greeted = record fresh {
  session = record fresh.session { is_connected = true };
  client_opts = (codes "a", codes "b") ∷ [];
}

greeting_handled : on_messages services fresh greeting ≡ ok greeted
unfolding on_messages qbm_pgsql.Message.tag qbm_pgsql.Message.read_integer
    qbm_pgsql.Unserializer.read_integer qbm_pgsql.Wire.from_network qbm_pgsql.Wire.from_bytes
    qbm_pgsql.Database.on_parameter_status qbm_pgsql.Message.read_string
    qbm_pgsql.Login.Signature.authenticated
greeting_handled = refl

on_messages-is_connected_example : greeted.session.is_connected ≡ (false || any_grant greeting)
on_messages-is_connected_example =
    on_messages-is_connected services fresh greeted greeting (ground arith) greeting_handled

abbrev refusal : List (ℕ × List ℕ)
refusal = (b'S', codes "F") ∷ (b'C', codes "25P03") ∷ []

on_error_response-waits_for_connection_example :
    (e : Database) × (on_error_response fresh (fields_bytes refusal []) ≡ ok e)
    × (on_disconnected e ≡ e)
    × ((waits_for_connection e ≡ false) ↔ Listed (codes "25P03"))
on_error_response-waits_for_connection_example =
    on_error_response-waits_for_connection fresh refusal [] (ground arith) refl

abbrev id_field : FieldDescription
id_field = record {
  name = codes "id";
  table_oid = 16384;
  attribute_number = 1;
  type_oid = 23;
  type_size = 4;
  type_mod = 4294967295;
  format_code = 1;
  max_size = 0;
}

abbrev find_person : PreparedQuery
find_person = record {
  name = codes "find";
  expression = codes "select id";
  param_types = [];
  row_description = [];
}

-- A client that prepares a statement.
abbrev preparing : Database
preparing = record fresh { client = with_kind (prepare_command find_person Script.done) (idle []) }

fields-IsField : All IsField fields
fields-IsField = (
  valid 1 (codes "id") (ground arith) (omega arith),
  (
    valid 0 (codes "age") (ground arith) (omega arith),
    (valid 0 (codes "name") (ground arith) (omega arith), tt),
  ),
)
  where
    valid :
        (format_code : ℕ) (name : List ℕ)
        → NoNul name
        → format_code < 65536
        → IsField (described name format_code)
    valid format_code name n p = record {
      name_text = n;
      table_fits = omega arith;
      number_fits = omega arith;
      oid_fits = omega arith;
      size_fits = omega arith;
      mod_fits = omega arith;
      code_fits = p;
    }

abbrev people : List (List (Option Value))
people = ann ∷ bob ∷ []

people-Fits : All Fits (columns fields people)
unfolding sent_row
people-Fits = ((omega arith, ann_small), ((omega arith, bob_small), tt))

people-IsCell : All (λ vs. (length vs ≤ length fields) × All IsCell vs) people
people-IsCell = ground arith

row_to-collect_all_example :
    (r : ResultImpl) × ((collect_all result_query no_results
          (description fields ∷ map row (columns fields people))
        >>= results_of [] result_query)
      ≡ ok r)
    × (size r ≡ 2)
    × ((i : ℕ) (vs : List (Option Value)) (t : ValueType)
        → get_elem? people i ≡ some vs
        → row_to r i 0 (map (type_or t) vs) ≡ up_to_null vs)
row_to-collect_all_example =
    row_to-collect_all fields people [] fields-IsField (omega arith) people-Fits people-IsCell

abbrev statement : PreparedQuery
statement = record {
  name = codes "all";
  expression = codes "select";
  param_types = [];
  row_description = fields;
}

row_to-query_prepared_example :
    (r : ResultImpl) × ((collect_all
          (query_prepared (codes "all"))
          no_results
          (map row (columns fields people))
        >>= results_of ((codes "all", statement) ∷ []) (query_prepared (codes "all")))
      ≡ ok r)
    × (size r ≡ 2)
    × ((i : ℕ) (vs : List (Option Value)) (t : ValueType)
        → get_elem? people i ≡ some vs
        → row_to r i 0 (map (type_or t) vs) ≡ up_to_null vs)
unfolding get
row_to-query_prepared_example =
    row_to-query_prepared fields people ((codes "all", statement) ∷ []) (codes "all") statement refl
      refl people-Fits people-IsCell
