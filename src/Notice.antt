-- ===== src/Notice.antt =====
-- `notice_message` of src/protocol.h and src/protocol.cpp, with `message::read(notice_message &)`:
-- errors and notices, as a sequence of coded fields.
pub mod Laws
use qbm_pgsql.Prelude.{
  ℕ, zero, suc, Bool, true, false, Option, none, some, List, [], ◌∷◌, ◌==◌, if◌then◌else◌, length,
  Result, ok, throws, undefined, runtime_error,
}
use qbm_pgsql.Reader.{Reader}
use qbm_pgsql.Message.{read_char, read_string}

-- `where` of the source is `context` here.
pub record NoticeMessage : Type 0 where
  pub severity : List ℕ
  pub sqlstate : List ℕ
  pub message : List ℕ
  pub detail : List ℕ
  pub hint : List ℕ
  pub position : List ℕ
  pub internal_position : List ℕ
  pub internal_query : List ℕ
  pub context : List ℕ
  pub schema_name : List ℕ
  pub table_name : List ℕ
  pub column_name : List ℕ
  pub data_type_name : List ℕ
  pub constraint_name : List ℕ
  pub file_name : List ℕ
  pub line : List ℕ
  pub routine : List ℕ

abbrev pub empty_notice : NoticeMessage
empty_notice = record {
  severity = [];
  sqlstate = [];
  message = [];
  detail = [];
  hint = [];
  position = [];
  internal_position = [];
  internal_query = [];
  context = [];
  schema_name = [];
  table_name = [];
  column_name = [];
  data_type_name = [];
  constraint_name = [];
  file_name = [];
  line = [];
  routine = [];
}

-- A pointer to a member.
pub data Member : Type 0 where
  severity : Member
  sqlstate : Member
  message : Member
  detail : Member
  hint : Member
  position : Member
  internal_position : Member
  internal_query : Member
  context : Member
  schema_name : Member
  table_name : Member
  column_name : Member
  data_type_name : Member
  constraint_name : Member
  file_name : Member
  line : Member
  routine : Member

abbrev pub get : NoticeMessage → Member → List ℕ
get m severity = m.severity
get m sqlstate = m.sqlstate
get m message = m.message
get m detail = m.detail
get m hint = m.hint
get m position = m.position
get m internal_position = m.internal_position
get m internal_query = m.internal_query
get m context = m.context
get m schema_name = m.schema_name
get m table_name = m.table_name
get m column_name = m.column_name
get m data_type_name = m.data_type_name
get m constraint_name = m.constraint_name
get m file_name = m.file_name
get m line = m.line
get m routine = m.routine

abbrev pub set : NoticeMessage → Member → List ℕ → NoticeMessage
set m severity v = record m { severity = v }
set m sqlstate v = record m { sqlstate = v }
set m message v = record m { message = v }
set m detail v = record m { detail = v }
set m hint v = record m { hint = v }
set m position v = record m { position = v }
set m internal_position v = record m { internal_position = v }
set m internal_query v = record m { internal_query = v }
set m context v = record m { context = v }
set m schema_name v = record m { schema_name = v }
set m table_name v = record m { table_name = v }
set m column_name v = record m { column_name = v }
set m data_type_name v = record m { data_type_name = v }
set m constraint_name v = record m { constraint_name = v }
set m file_name v = record m { file_name = v }
set m line v = record m { line = v }
set m routine v = record m { routine = v }

-- `notice_fields.find(code)`.
unfoldable pub find : ℕ → Option Member
find code =
    if code == b'S'
    then some severity
    else if code == b'C'
    then some sqlstate
    else if code == b'M'
    then some message
    else if code == b'D'
    then some detail
    else if code == b'H'
    then some hint
    else if code == b'P'
    then some position
    else if code == b'p'
    then some internal_position
    else if code == b'q'
    then some internal_query
    else if code == b'W'
    then some context
    else if code == b's'
    then some schema_name
    else if code == b't'
    then some table_name
    else if code == b'c'
    then some column_name
    else if code == b'd'
    then some data_type_name
    else if code == b'n'
    then some constraint_name
    else if code == b'F'
    then some file_name
    else if code == b'L'
    then some line
    else if code == b'R'
    then some routine
    else none

abbrev is_some : Option Member → Bool
is_some none = false
is_some (some p) = true

unfoldable pub has_field : ℕ → Bool
unfolding find
has_field code = is_some (find code)

-- `field(code)`: the member to read or to write.
unfoldable pub field : ℕ → Result Member
unfolding find
field code = elim (find code) [ none ↦ throws runtime_error | some p ↦ ok p ]

-- What a read leaves in the member of a code: a code with no member is read into a local.
abbrev assign : NoticeMessage → Result Member → Option (List ℕ) → NoticeMessage
assign m (ok p) (some v) = set m p v
assign m (ok p) none = m
assign m (throws e) v = m
assign m undefined v = m

unfoldable pub store : NoticeMessage → ℕ → Option (List ℕ) → NoticeMessage
unfolding has_field field
store m code v = if has_field code then assign m (field code) v else m

-- The loop, on fuel; `undefined` where the fuel is spent, which is never.
unfoldable pub read_fields : ℕ → NoticeMessage → Reader NoticeMessage
unfolding read_char read_string store
read_fields zero m s = undefined
read_fields (suc fuel) m s = elim (read_char s) [
  | ok (none, s') ↦ ok (some m, s')
  | ok (some zero, s') ↦ ok (some m, s')
  | ok (some (suc c), s') ↦ elim (read_string s') [
    | ok (v, s'') ↦ read_fields fuel (store m (suc c) v) s''
    | throws e ↦ throws e
    | undefined ↦ undefined
  ]
  | throws e ↦ throws e
  | undefined ↦ undefined
]

-- Each round takes a byte, so a fuel of one more than the bytes is enough.
unfoldable pub read_notice : NoticeMessage → Reader NoticeMessage
unfolding read_fields
read_notice m s = read_fields (suc (length s)) m s
