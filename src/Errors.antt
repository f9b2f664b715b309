-- ===== src/Errors.antt =====
-- `get_error_type`, `set_error` and their helpers of pginternal.c: which exception of the DB-API
-- a failed command raises.
pub mod Laws
mod Tests
use py_gre_sql.Base.{ℕ, Bool, ◌||◌, [], ◌∷◌, Bytes, Option, none, some, ◌==◌, if◌then◌else◌, take}
use py_gre_sql.Dimensions.{deref}

pub data ErrorType : Type 0 where
  interface_error database_error data_error operational_error : ErrorType
  integrity_error internal_error programming_error not_supported_error : ErrorType

-- the inner switches, on `sqlstate[1]`
class_0 : ℕ → ErrorType
class_0 c = if c == b'A' then not_supported_error else database_error

class_2 : ℕ → ErrorType
class_2 c =
    if c == b'0' || c == b'1'
    then programming_error
    else if c == b'2'
    then data_error
    else if c == b'3'
    then integrity_error
    else if c == b'4' || c == b'5'
    then internal_error
    else if c == b'6' || c == b'7' || c == b'8'
    then operational_error
    else if c == b'B' || c == b'D' || c == b'F'
    then internal_error
    else database_error

class_3 : ℕ → ErrorType
class_3 c =
    if c == b'4'
    then operational_error
    else if c == b'8' || c == b'9' || c == b'B'
    then internal_error
    else if c == b'D' || c == b'F'
    then programming_error
    else database_error

class_4 : ℕ → ErrorType
class_4 c =
    if c == b'0'
    then operational_error
    else if c == b'2' || c == b'4'
    then programming_error
    else database_error

-- the outer switch, on `sqlstate[0]`
error_class : ℕ → ℕ → ErrorType
error_class a b =
    if a == b'0'
    then class_0 b
    else if a == b'2'
    then class_2 b
    else if a == b'3'
    then class_3 b
    else if a == b'4'
    then class_4 b
    else if a == b'5' || a == b'H'
    then operational_error
    else if a == b'F' || a == b'P' || a == b'X'
    then internal_error
    else database_error

-- a C string: the switches read its first two bytes, of which 0 may be the end
pub get_error_type : Bytes → ErrorType
get_error_type [] = error_class 0 0
get_error_type (a ∷ s) = error_class a (deref 0 s)

-- What `set_error` leaves as the pending exception: the class, the message with the encoding by
-- which it is decoded, and the attribute `sqlstate`.
pub record Raised : Type 0 where
  pub type : ErrorType
  pub msg : Bytes
  pub encoding : ℕ
  pub sqlstate : Option Bytes

pub set_error_msg_and_state : ErrorType → Bytes → ℕ → Option Bytes → Raised
set_error_msg_and_state type msg encoding none = record {
  type = type;
  msg = msg;
  encoding = encoding;
  sqlstate = none;
}
set_error_msg_and_state type msg encoding (some state) = record {
  type = type;
  msg = msg;
  encoding = encoding;
  sqlstate = some (take 5 state);
}

-- `set_error_msg`; `ascii` is `pg_encoding_ascii`
pub set_error_msg : ℕ → ErrorType → Bytes → Raised
set_error_msg ascii type msg = set_error_msg_and_state type msg ascii none

-- What the connection and the result say: the error message with the client encoding, and the
-- field PG_DIAG_SQLSTATE. `none` is a null pointer.
pub record Diagnosis : Type 0 where
  pub message : Option (Bytes × ℕ)
  pub state : Option Bytes

chosen_message : ℕ → Bytes → Option (Bytes × ℕ) → Bytes × ℕ
chosen_message ascii msg none = (msg, ascii)
chosen_message ascii msg (some m) = m

chosen_type : ErrorType → Option Bytes → ErrorType
chosen_type type none = type
chosen_type type (some state) = get_error_type state

pub set_error : ℕ → ErrorType → Bytes → Diagnosis → Raised
set_error ascii type msg d =
    let m = chosen_message ascii msg d.message in
    set_error_msg_and_state (chosen_type type d.state) m.0 m.1 d.state
