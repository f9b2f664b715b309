-- ===== src/Libpq.antt =====
-- What the source and large objects call of libpq, as a parameter: connections, results and the
-- documented answers of the functions. A call that talks to the server returns the connection that
-- it leaves behind.
pub mod Demo
use py_gre_sql.Base.{[], ℕ, ℤ, List, Bytes, Option, Bool, true, false, none, some}

-- the values of `PQresultStatus` that the code names, and the others
pub data Status : Type 0 where
  tuples_ok command_ok copy_out copy_in : Status
  empty_query bad_response fatal_error nonfatal_error : Status
  other_status : Status

-- What a result holds at a row and a column: `PQgetisnull` holds for the first two, and
-- `PQgetvalue` is a null pointer, the empty text, and the value.
pub data Cell : Type 0 where
  out_of_range : Cell
  null_value : Cell
  value : Bytes → Cell

abbrev pub get_is_null : Cell → Bool
get_is_null out_of_range = true
get_is_null null_value = true
get_is_null (value s) = false

abbrev pub get_value : Cell → Option Bytes
get_value out_of_range = none
get_value null_value = some []
get_value (value s) = some s

-- the result of `PQgetCopyData`: a positive count, -1, or another
pub data CopyData : Type 0 where
  copied : Bytes → CopyData
  copy_done : CopyData
  copy_failed : CopyData

-- the result of `PQgetline`: 0 with a line, 1, or EOF
pub data Line : Type 0 where
  line : Bytes → Line
  line_too_long : Line
  line_end : Line

-- `PGnotify`
pub record Notify : Type 0 where
  pub relname : Bytes
  pub be_pid : ℤ
  pub extra : Bytes

pub record Libpq : Type 1 where
  pub Conn : Type 0
  pub Answer : Type 0
  pub client_encoding : Conn → ℕ
  pub error_message : Conn → Bytes
  -- `none` is a null pointer
  pub exec : Conn → Bytes → Conn × Option Answer
  -- `none` among the parameters is a null pointer
  pub exec_params : Conn → Bytes → List (Option Bytes) → Conn × Option Answer
  pub exec_prepared : Conn → Bytes → List (Option Bytes) → Conn × Option Answer
  -- `false` is the status 0
  pub send_query : Conn → Bytes → Conn × Bool
  pub send_query_params : Conn → Bytes → List (Option Bytes) → Conn × Bool
  pub prepare : Conn → Bytes → Bytes → Conn × Option Answer
  pub describe_prepared : Conn → Bytes → Conn × Option Answer
  pub get_result : Conn → Conn × Option Answer
  pub put_copy_data : Conn → Bytes → Conn × ℤ
  pub put_copy_end : Conn → Option Bytes → Conn × ℤ
  pub get_copy_data : Conn → Conn × CopyData
  -- `true` is a status other than 0, or below 0
  pub put_line : Conn → Bytes → Conn × Bool
  pub get_line : Conn → ℕ → Conn × Line
  pub end_copy : Conn → Conn × Bool
  pub set_nonblocking : Conn → ℤ → Conn × Bool
  pub is_nonblocking : Conn → ℤ
  -- `none` is a null pointer
  pub escape_identifier : Conn → Bytes → Option Bytes
  pub escape_literal : Conn → Bytes → Option Bytes
  pub escape_string : Conn → Bytes → Bytes
  pub escape_bytea : Conn → Bytes → Bytes
  pub transaction_status : Conn → ℕ
  pub parameter_status : Conn → Bytes → Option Bytes
  pub reset_conn : Conn → Conn
  pub request_cancel : Conn → Conn × ℤ
  pub socket : Conn → ℤ
  -- 0 is PGRES_POLLING_FAILED
  pub connect_poll : Conn → Conn × ℕ
  pub consume_input : Conn → Conn
  pub notifies : Conn → Conn × Option Notify
  pub result_status : Answer → Status
  pub ntuples : Answer → ℕ
  pub nfields : Answer → ℕ
  pub cell : Answer → ℤ → ℕ → Cell
  pub fformat : Answer → ℕ → ℕ
  pub cmd_status : Answer → Bytes
  pub cmd_tuples : Answer → Bytes
  -- 0 is `InvalidOid`
  pub oid_value : Answer → ℕ
  pub sqlstate : Answer → Option Bytes
  pub fnumber : Answer → Option Bytes → ℤ
  pub fname : Answer → ℕ → Bytes
  pub ftype : Answer → ℕ → ℕ
  pub fsize : Answer → ℕ → ℤ
  pub fmod : Answer → ℕ → ℤ

-- `PQresultStatus` of a null pointer is PGRES_FATAL_ERROR.
abbrev pub status_of : (pq : Libpq) → Option pq.Answer → Status
status_of pq none = fatal_error
status_of pq (some r) = pq.result_status r
