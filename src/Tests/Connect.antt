-- ===== src/Tests/Connect.antt =====
-- Connection strings of src/common.cpp on small inputs.
use qbm_pgsql.Prelude.{◌≡◌, refl, codes, ok, throws, runtime_error}
use qbm_pgsql.Connect.{ConnectionOptions, no_options, parse}
use qbm_pgsql.Connect.RoundTrip.{to_string, parse-to_string}

abbrev options : ConnectionOptions
options = record {
  alias = codes "a";
  schema = codes "tcp";
  uri = codes "h:1";
  database = codes "d";
  user = codes "u";
  password = codes "p";
}

parse-to_string_example : parse (to_string options) ≡ ok options
parse-to_string_example = parse-to_string options (record {
  plain_alias = (refl, tt);
  plain_schema = (refl, (refl, (refl, tt)));
  plain_user = (refl, tt);
  plain_password = (refl, tt);
  plain_uri = (refl, (refl, (refl, tt)));
  plain_database = (refl, tt);
})

parse_socket :
    parse (codes "socket:///tmp/s[d]")
    ≡ ok (record no_options { schema = codes "socket"; uri = codes "/tmp/s"; database = codes "d" })
unfolding parse
parse_socket = refl

-- An `=` in a password is lost.
parse_equals :
    parse (codes "tcp://u:p=w@h[d]")
    ≡ ok (record no_options {
      schema = codes "tcp";
      uri = codes "h";
      database = codes "d";
      user = codes "u";
      password = codes "pw";
    })
unfolding parse
parse_equals = refl

parse_no_slashes : parse (codes "tcp:x") ≡ throws runtime_error
unfolding parse
parse_no_slashes = refl
