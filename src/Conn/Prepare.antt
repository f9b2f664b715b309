-- ===== src/Conn/Prepare.antt =====
-- The methods of pgconn.c for prepared statements.
use py_gre_sql.Base.{Bool, true, false, Bytes, Option, none, some, if◌then◌else◌, codes}
use py_gre_sql.Settings.{Settings}
use py_gre_sql.Python.{Python}
use py_gre_sql.Errors.{programming_error, set_error}
use py_gre_sql.Libpq.{Libpq, Status, command_ok, status_of}
use py_gre_sql.Conn.{
  ConnObject, CallError, Return, gives, raises, not_connected, string_expected, command_failed,
}
use py_gre_sql.Conn.Execute.{new_query}
use py_gre_sql.Query.{Query, AsyncMode}

module _ (py : Python) (g : Settings py.Obj) (pq : Libpq) where
  abbrev is_command : Status → Bool
  is_command command_ok = true
  is_command _ = false

  abbrev state_of : Option pq.Answer → Option Bytes
  state_of none = none
  state_of (some r) = pq.sqlstate r

  abbrev with_base : ConnObject py pq → pq.Conn → ConnObject py pq
  with_base self c = record self { base = record self.base { cnx = some c } }

  abbrev command_raised : Bytes → pq.Conn → Option pq.Answer → CallError
  command_raised text c r = command_failed (
      set_error g.encoding_ascii programming_error text
        (record { message = some (pq.error_message c, pq.client_encoding c); state = state_of r }))

  abbrev prepared_by :
      ConnObject py pq → pq.Conn × Option pq.Answer → ConnObject py pq × Return Unit
  prepared_by self (c, r) = if is_command (status_of pq r) then (with_base self c, gives tt) else (
    with_base self c,
    raises (command_raised (codes "Cannot create prepared statement") c r),
  )

  abbrev prepare_on :
      ConnObject py pq → Option (Bytes × Bytes) → Option pq.Conn → ConnObject py pq × Return Unit
  prepare_on self args none = (self, raises not_connected)
  prepare_on self none (some c) = (self, raises string_expected)
  prepare_on self (some (name, query)) (some c) = prepared_by self (pq.prepare c name query)

  -- two texts, or other arguments
  unfoldable pub conn_prepare :
      ConnObject py pq → Option (Bytes × Bytes) → ConnObject py pq × Return Unit
  conn_prepare self args = prepare_on self args self.base.cnx

  -- The field `async` of the new query object is not set: `memory` is what it holds.
  abbrev described :
      AsyncMode
      → ConnObject py pq
      → pq.Conn × Option pq.Answer
      → ConnObject py pq × Return (Query py pq)
  described memory self (c, none) = (
    with_base self c,
    raises (command_raised (codes "Cannot describe prepared statement") c none),
  )
  described memory self (c, some r) =
      if is_command (pq.result_status r)
      then (let s = with_base self c in
          (s, gives (record (new_query py g pq s (pq.client_encoding c) r) { async = memory })))
      else (
        with_base self c,
        raises (command_raised (codes "Cannot describe prepared statement") c (some r)),
      )

  abbrev describe_on :
      AsyncMode
      → ConnObject py pq
      → Option Bytes
      → Option pq.Conn
      → ConnObject py pq × Return (Query py pq)
  describe_on memory self name none = (self, raises not_connected)
  describe_on memory self none (some c) = (self, raises string_expected)
  describe_on memory self (some name) (some c) = described memory self (pq.describe_prepared c name)

  unfoldable pub conn_describe_prepared :
      AsyncMode → ConnObject py pq → Option Bytes → ConnObject py pq × Return (Query py pq)
  conn_describe_prepared memory self name = describe_on memory self name self.base.cnx
