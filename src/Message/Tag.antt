-- ===== src/Message/Tag.antt =====
-- `message_tag` of src/protocol.h, and the two sets of tags of src/protocol.cpp. Two messages of
-- opposite directions may share a letter.
use qbm_pgsql.Prelude.{ℕ}

abbrev pub empty : ℕ
empty = 0

abbrev pub authentication : ℕ
authentication = b'R'

abbrev pub backend_key_data : ℕ
backend_key_data = b'K'

abbrev pub bind : ℕ
bind = b'B'

abbrev pub bind_complete : ℕ
bind_complete = b'2'

abbrev pub close : ℕ
close = b'C'

abbrev pub close_complete : ℕ
close_complete = b'3'

abbrev pub command_complete : ℕ
command_complete = b'C'

abbrev pub copy_data : ℕ
copy_data = b'd'

abbrev pub copy_done : ℕ
copy_done = b'c'

abbrev pub copy_fail : ℕ
copy_fail = b'f'

abbrev pub copy_in_response : ℕ
copy_in_response = b'G'

abbrev pub copy_out_response : ℕ
copy_out_response = b'H'

abbrev pub copy_both_response : ℕ
copy_both_response = b'W'

abbrev pub data_row : ℕ
data_row = b'D'

abbrev pub describe : ℕ
describe = b'D'

abbrev pub empty_query_response : ℕ
empty_query_response = b'I'

abbrev pub error_response : ℕ
error_response = b'E'

abbrev pub execute : ℕ
execute = b'E'

abbrev pub flush : ℕ
flush = b'H'

abbrev pub function_call : ℕ
function_call = b'F'

abbrev pub function_call_resp : ℕ
function_call_resp = b'V'

abbrev pub no_data : ℕ
no_data = b'n'

abbrev pub notice_response : ℕ
notice_response = b'N'

abbrev pub notification_resp : ℕ
notification_resp = b'A'

abbrev pub parameter_description : ℕ
parameter_description = b't'

abbrev pub parameter_status : ℕ
parameter_status = b'S'

abbrev pub parse : ℕ
parse = b'P'

abbrev pub parse_complete : ℕ
parse_complete = b'1'

abbrev pub password_message : ℕ
password_message = b'p'

abbrev pub portal_suspended : ℕ
portal_suspended = b's'

abbrev pub query : ℕ
query = b'Q'

abbrev pub ready_for_query : ℕ
ready_for_query = b'Z'

abbrev pub row_description : ℕ
row_description = b'T'

abbrev pub sync : ℕ
sync = b'S'

abbrev pub terminate : ℕ
terminate = b'X'
