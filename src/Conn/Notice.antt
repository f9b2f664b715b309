-- ===== src/Conn/Notice.antt =====
-- The notice object of pgnotice.c, and the function of pginternal.c that hands notices to the callback
-- of a connection.
use py_gre_sql.Base.{[], ◌∷◌, Bytes, Option, none, some, if◌then◌else◌}
use py_gre_sql.Types.{is_set}
use py_gre_sql.Python.{Python}
use py_gre_sql.Outcome.{null_access}
use py_gre_sql.Libpq.{Libpq}
use py_gre_sql.Source.{Connection, check_cnx_obj}
use py_gre_sql.Conn.{ConnObject, Return, gives, raises, undefined, no_notice}
use py_gre_sql.Names.{is_name, Attribute, object, parent_connection, none_while_pending, generic}

-- PG_DIAG_SEVERITY, PG_DIAG_MESSAGE_PRIMARY, PG_DIAG_MESSAGE_DETAIL and PG_DIAG_MESSAGE_HINT
pub data FieldCode : Type 0 where
  severity message_primary message_detail message_hint : FieldCode

-- `PQresultErrorMessage` and `PQresultErrorField`, whose `none` is a null pointer
pub record Diagnostics (pq : Libpq) : Type 0 where
  pub error_message : pq.Answer → Bytes
  pub error_field : pq.Answer → FieldCode → Option Bytes

-- `noticeObject`
pub record Notice (pq : Libpq) : Type 0 where
  pub pgcnx : Option (Connection pq)
  pub res : Option pq.Answer

abbrev field_code : Bytes → Option FieldCode
field_code name =
    if is_name "severity" name
    then some severity
    else if is_name "primary" name
    then some message_primary
    else if is_name "detail" name
    then some message_detail
    else if is_name "hint" name
    then some message_hint
    else none

module _ (py : Python) (pq : Libpq) (diag : Diagnostics pq) where
  abbrev connection_of : Option (Connection pq) → Attribute py.Obj
  connection_of none = object py.none_obj
  connection_of (some c) =
      if is_set (check_cnx_obj c) then none_while_pending else parent_connection

  abbrev field_object : Option Bytes → Attribute py.Obj
  field_object none = object py.none_obj
  field_object (some s) = object (py.str_of s)

  abbrev coded_attribute : pq.Answer → Option FieldCode → Attribute py.Obj
  coded_attribute res none = generic
  coded_attribute res (some code) = field_object (diag.error_field res code)

  abbrev named_attribute : Option (Connection pq) → pq.Answer → Bytes → Attribute py.Obj
  named_attribute cnx res name =
      if is_name "pgcnx" name
      then connection_of cnx
      else if is_name "message" name
      then object (py.str_of (diag.error_message res))
      else coded_attribute res (field_code name)

  -- the text of the name, which is a null pointer if the name is no text
  abbrev attribute_of :
      Option (Connection pq) → Option pq.Answer → Option Bytes → Return (Attribute py.Obj)
  attribute_of cnx none name = raises no_notice
  attribute_of cnx (some res) none = undefined null_access
  attribute_of cnx (some res) (some name) = gives (named_attribute cnx res name)

  unfoldable pub notice_getattr : Notice pq → Option Bytes → Return (Attribute py.Obj)
  notice_getattr self name = attribute_of self.pgcnx self.res name

  -- In Python 3 the name is given as bytes, of which `PyUnicode_AsUTF8` makes a null pointer.
  unfoldable pub notice_str : Notice pq → Return (Attribute py.Obj)
  notice_str self = notice_getattr self none

  abbrev call_with : Option py.Obj → py.Obj → Option (Option py.Obj)
  call_with none notice = none
  call_with (some f) notice = some (py.call f (notice ∷ []))

  -- `notice_receiver`: the notice object is made by `notice_object`, and the result of the call is
  -- dropped. `none` is no call.
  unfoldable pub receive_notice :
      (Notice pq → py.Obj) → ConnObject py pq → pq.Answer → Option (Option py.Obj)
  receive_notice notice_object self res =
      call_with self.notice_receiver
        (notice_object (record { pgcnx = some self.base; res = some res }))
