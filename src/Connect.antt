-- ===== src/Connect.antt =====
-- `connect_string_parser` of src/common.cpp, and `connection_options` of src/common.h.
pub mod RoundTrip
use qbm_pgsql.Prelude.{
  ℕ, suc, Bool, true, false, not, ◌||◌, ◌&&◌, List, [], ◌∷◌, ◌++◌, leb, ◌==◌, if◌then◌else◌, codes,
  Result, ok, throws, undefined, runtime_error, ◌>>=◌,
}

pub record ConnectionOptions : Type 0 where
  pub alias : List ℕ
  pub schema : List ℕ
  pub uri : List ℕ
  pub database : List ℕ
  pub user : List ℕ
  pub password : List ℕ

abbrev pub no_options : ConnectionOptions
no_options = record { alias = []; schema = []; uri = []; database = []; user = []; password = [] }

pub data State : Type 0 where
  alias schema schema_slash1 schema_slash2 user password url database done : State

pub record Parser : Type 0 where
  pub state : State
  pub current : List ℕ
  pub opts : ConnectionOptions

-- `std::isspace` of the C locale.
abbrev pub is_space : ℕ → Bool
is_space c = c == 32 || (leb 9 c && leb c 13)

abbrev pub push_back : Parser → ℕ → Parser
push_back p c = record p { current = p.current ++ c ∷ [] }

-- Each `swap` exchanges a field with the current text.
abbrev pub swap_alias : Parser → State → Parser
swap_alias p s = record {
  state = s;
  current = p.opts.alias;
  opts = record p.opts { alias = p.current };
}

abbrev pub swap_schema : Parser → State → Parser
swap_schema p s = record {
  state = s;
  current = p.opts.schema;
  opts = record p.opts { schema = p.current };
}

abbrev pub swap_user : Parser → State → Parser
swap_user p s = record {
  state = s;
  current = p.opts.user;
  opts = record p.opts { user = p.current };
}

abbrev pub swap_password : Parser → State → Parser
swap_password p s = record {
  state = s;
  current = p.opts.password;
  opts = record p.opts { password = p.current };
}

abbrev pub swap_uri : Parser → State → Parser
swap_uri p s = record { state = s; current = p.opts.uri; opts = record p.opts { uri = p.current } }

abbrev pub swap_database : Parser → State → Parser
swap_database p s = record {
  state = s;
  current = p.opts.database;
  opts = record p.opts { database = p.current };
}

-- What the user was is the host, and the current text its port.
abbrev pub host_and_port : Parser → Parser
host_and_port p = record {
  state = database;
  current = [];
  opts = record p.opts { uri = p.opts.user ++ (b':' ∷ p.current); user = p.opts.uri };
}

-- The characters that may end a text, by state; an `=` outside the alias is lost.
unfoldable pub on_equals : State → Parser → Parser
on_equals alias p = swap_alias p schema
on_equals _ p = p

unfoldable pub on_colon : State → Parser → Parser
on_colon alias p = swap_schema p schema_slash1
on_colon schema p = swap_schema p schema_slash1
on_colon user p = swap_user p password
on_colon _ p = push_back p b':'

unfoldable pub on_at : State → Parser → Parser
on_at user p = swap_user p url
on_at password p = swap_password p url
on_at _ p = push_back p b'@'

unfoldable pub on_open : State → Parser → Parser
on_open user p = swap_uri p database
on_open url p = swap_uri p database
on_open password p = host_and_port p
on_open _ p = push_back p b'['

unfoldable pub on_close : State → Parser → Parser
on_close database p = swap_database p done
on_close _ p = push_back p b']'

-- The `default` of the `switch`.
unfoldable pub on_char : State → Parser → ℕ → Parser
unfolding on_equals on_colon on_at on_open on_close
on_char s p c =
    if c == b'='
    then on_equals s p
    else if c == b':'
    then on_colon s p
    else if c == b'@'
    then on_at s p
    else if c == b'['
    then on_open s p
    else if c == b']'
    then on_close s p
    else if is_space c
    then p
    else push_back p c

abbrev slash : Parser → State → ℕ → Result Parser
slash p s c = if c == b'/' then ok (record p { state = s }) else throws runtime_error

unfoldable pub step : State → Parser → ℕ → Result Parser
unfolding on_char
step schema_slash1 p c = slash p schema_slash2 c
step schema_slash2 p c = slash p user c
step s p c = ok (on_char s p c)

unfoldable pub read_all : List ℕ → Parser → Result Parser
unfolding step
read_all [] p = ok p
read_all (c ∷ s) p = step p.state p c >>= read_all s

-- `connection_options::parse`. A text that ends early leaves the rest of the options empty.
unfoldable pub parse : List ℕ → Result ConnectionOptions
unfolding read_all
parse literal =
    read_all literal (record { state = alias; current = []; opts = no_options }) >>= λ p. ok p.opts

-- `generate_alias`.
unfoldable pub generate_alias : ConnectionOptions → ConnectionOptions
generate_alias o = record o {
  alias = o.user ++ (b'@' ∷ (o.uri ++ (b'[' ∷ (o.database ++ b']' ∷ []))));
}
