-- ===== src/Conn/Methods.antt =====
-- The methods of pgconn.c that pass a call on to libpq, those for the callback functions, `close`,
-- the escape functions, and the constructors of large objects.
use py_gre_sql.Base.{
  ℕ, zero, suc, ℤ, pos, Bool, true, false, [], ◌∷◌, Bytes, Option, none, some, codes,
}
use py_gre_sql.Settings.{Settings, Callable, none_given, callable, not_callable}
use py_gre_sql.DateStyle.{date_style_to_format}
use py_gre_sql.Python.{Python}
use py_gre_sql.Convert.{get_encoded_string, get_decoded_string}
use py_gre_sql.Errors.{internal_error, set_error}
use py_gre_sql.Outcome.{null_access}
use py_gre_sql.Libpq.{Libpq, Line, line, line_too_long, line_end, Notify}
use py_gre_sql.Source.{Argument, byte_string, unicode}
use py_gre_sql.Conn.{
  ConnObject, Return, gives, raises, undefined, ◌>>=◌, of_option, not_connected, string_expected,
  integer_expected, not_encoded, message_raised, command_failed, buffer_exceeded, callable_expected,
  already_closed, max_buffer_size,
}

module _ (py : Python) (g : Settings py.Obj) (pq : Libpq) where
  -- a method, which may change the connection object
  abbrev pub ConnCall : Type 0 → Type 0
  ConnCall A = ConnObject py pq × Return A

  abbrev pub set_cnx : ConnObject py pq → pq.Conn → ConnObject py pq
  set_cnx self c = record self { base = record self.base { cnx = some c } }

  -- A method's body behind the check that the connection is there.
  abbrev alive :
      {A : Type 0} → ConnObject py pq → Option pq.Conn → (pq.Conn → ConnCall A) → ConnCall A
  alive self none body = (self, raises not_connected)
  alive self (some c) body = body c

  -- the end of a method whose call of libpq may fail with the message of the connection
  abbrev unless : ConnObject py pq → pq.Conn × Bool → ConnCall Unit
  unless self (c, true) = (set_cnx self c, raises (message_raised (pq.error_message c)))
  unless self (c, false) = (set_cnx self c, gives tt)

  abbrev putline_on : ConnObject py pq → Option Bytes → pq.Conn → ConnCall Unit
  putline_on self none c = (self, raises string_expected)
  putline_on self (some s) c = unless self (pq.put_line c s)

  unfoldable pub conn_putline : ConnObject py pq → Option Bytes → ConnCall Unit
  conn_putline self text = alive self self.base.cnx (putline_on self text)

  -- `none` is None
  abbrev got_line : ConnObject py pq → pq.Conn × Line → ConnCall (Option Bytes)
  got_line self (c, line s) = (set_cnx self c, gives (some s))
  got_line self (c, line_too_long) = (set_cnx self c, raises buffer_exceeded)
  got_line self (c, line_end) = (set_cnx self c, gives none)

  unfoldable pub conn_getline : ConnObject py pq → ConnCall (Option Bytes)
  conn_getline self = alive self self.base.cnx λ c. got_line self (pq.get_line c max_buffer_size)

  unfoldable pub conn_endcopy : ConnObject py pq → ConnCall Unit
  conn_endcopy self = alive self self.base.cnx λ c. unless self (pq.end_copy c)

  abbrev nonblocking_on : ConnObject py pq → Option ℤ → pq.Conn → ConnCall Unit
  nonblocking_on self none c = (self, raises integer_expected)
  nonblocking_on self (some z) c = unless self (pq.set_nonblocking c z)

  unfoldable pub conn_set_non_blocking : ConnObject py pq → Option ℤ → ConnCall Unit
  conn_set_non_blocking self arg = alive self self.base.cnx (nonblocking_on self arg)

  abbrev truth : ConnObject py pq → pq.Conn → ℤ → ConnCall Bool
  truth self c (pos zero) = (self, gives false)
  truth self c (pos (suc n)) = (self, gives true)
  truth self c _ = (self, raises (message_raised (pq.error_message c)))

  unfoldable pub conn_is_non_blocking : ConnObject py pq → ConnCall Bool
  conn_is_non_blocking self = alive self self.base.cnx λ c. truth self c (pq.is_nonblocking c)

  unfoldable pub conn_transaction : ConnObject py pq → ConnCall ℕ
  conn_transaction self = alive self self.base.cnx λ c. (self, gives (pq.transaction_status c))

  abbrev parameter_on : ConnObject py pq → Option Bytes → pq.Conn → ConnCall (Option Bytes)
  parameter_on self none c = (self, raises string_expected)
  parameter_on self (some name) c = (self, gives (pq.parameter_status c name))

  -- `none` is None, for an unknown parameter
  unfoldable pub conn_parameter : ConnObject py pq → Option Bytes → ConnCall (Option Bytes)
  conn_parameter self name = alive self self.base.cnx (parameter_on self name)

  abbrev format_cached : ConnObject py pq → pq.Conn → Option Bytes → ConnCall Bytes
  format_cached self c (some fmt) = (self, gives fmt)
  format_cached self c none =
      let fmt = date_style_to_format (pq.parameter_status c (codes "DateStyle")) in
      (record self { base = record self.base { date_format = some fmt } }, gives fmt)

  -- The format is kept in the connection.
  unfoldable pub conn_date_format : ConnObject py pq → ConnCall Bytes
  conn_date_format self = alive self self.base.cnx λ c. format_cached self c self.base.date_format

  unfoldable pub conn_reset : ConnObject py pq → ConnCall Unit
  conn_reset self = alive self self.base.cnx λ c. (set_cnx self (pq.reset_conn c), gives tt)

  abbrev cancelled : ConnObject py pq → pq.Conn × ℤ → ConnCall ℤ
  cancelled self (c, z) = (set_cnx self c, gives z)

  unfoldable pub conn_cancel : ConnObject py pq → ConnCall ℤ
  conn_cancel self = alive self self.base.cnx λ c. cancelled self (pq.request_cancel c)

  unfoldable pub conn_fileno : ConnObject py pq → ConnCall ℤ
  conn_fileno self = alive self self.base.cnx λ c. (self, gives (pq.socket c))

  unfoldable pub conn_set_cast_hook : ConnObject py pq → Callable py.Obj → ConnCall Unit
  conn_set_cast_hook self none_given = (record self { cast_hook = none }, gives tt)
  conn_set_cast_hook self (callable f) = (record self { cast_hook = some f }, gives tt)
  conn_set_cast_hook self not_callable = (self, raises callable_expected)

  -- `none` is None
  unfoldable pub conn_get_cast_hook : ConnObject py pq → Option py.Obj
  conn_get_cast_hook self = self.cast_hook

  -- A callable is also made the receiver of libpq, which then calls `notice_receiver`; it stays so
  -- behind None, which that function tests for.
  unfoldable pub conn_set_notice_receiver : ConnObject py pq → Callable py.Obj → ConnCall Unit
  conn_set_notice_receiver self none_given = (record self { notice_receiver = none }, gives tt)
  conn_set_notice_receiver self (callable f) = (record self { notice_receiver = some f }, gives tt)
  conn_set_notice_receiver self not_callable = (self, raises callable_expected)

  -- `none` is None
  unfoldable pub conn_get_notice_receiver : ConnObject py pq → Option py.Obj
  conn_get_notice_receiver self = self.notice_receiver

  abbrev polled : ConnObject py pq → pq.Conn × ℕ → ConnCall ℕ
  polled self (c, zero) = (
    set_cnx self c,
    raises (
        command_failed (
          set_error g.encoding_ascii internal_error (codes "Polling failed")
            (record { message = some (pq.error_message c, pq.client_encoding c); state = none }))),
  )
  polled self (c, suc rc) = (set_cnx self c, gives (suc rc))

  unfoldable pub conn_poll : ConnObject py pq → ConnCall ℕ
  conn_poll self = alive self self.base.cnx λ c. polled self (pq.connect_poll c)

  abbrev close_on : ConnObject py pq → Option pq.Conn → ConnCall Unit
  close_on self none = (self, raises already_closed)
  close_on self (some c) = (record self { base = record self.base { cnx = none } }, gives tt)

  unfoldable pub conn_close : ConnObject py pq → ConnCall Unit
  conn_close self = close_on self self.base.cnx

  abbrev notify_tuple : Option Notify → Option py.Obj
  notify_tuple none = none
  notify_tuple (some n) =
      some (py.tuple_of (py.str_of n.relname ∷ py.int_of n.be_pid ∷ py.str_of n.extra ∷ []))

  abbrev notified : ConnObject py pq → pq.Conn × Option Notify → ConnCall (Option py.Obj)
  notified self (c, n) = (set_cnx self c, gives (notify_tuple n))

  unfoldable pub conn_get_notify : ConnObject py pq → ConnCall (Option py.Obj)
  conn_get_notify self =
      alive self self.base.cnx λ c. notified self (pq.notifies (pq.consume_input c))

  abbrev encoded_text : Option Bytes → Return Bytes
  encoded_text none = raises not_encoded
  encoded_text (some s) = gives s

  -- the bytes of the result, for bytes as the argument
  abbrev bytes_result : Option Bytes → Return py.Obj
  bytes_result none = undefined null_access
  bytes_result (some s) = gives (py.bytes_of s)

  -- the decoded result, for a text as the argument
  abbrev text_result : ℕ → Option Bytes → Return py.Obj
  text_result encoding none = undefined null_access
  text_result encoding (some s) = of_option (get_decoded_string py g s encoding)

  -- What the escape functions share: `escape` is the function of libpq. They do not check the
  -- connection, of which they need the encoding for a text.
  abbrev escaped : (Bytes → Option Bytes) → ℕ → Argument py.Obj → Return py.Obj
  escaped escape encoding (byte_string s) = bytes_result (escape s)
  escaped escape encoding (unicode o) =
      encoded_text (get_encoded_string py g o encoding) >>= λ s. text_result encoding (escape s)
  escaped escape encoding _ = raises string_expected

  unfoldable pub conn_escape_literal : pq.Conn → Argument py.Obj → Return py.Obj
  conn_escape_literal c s = escaped (pq.escape_literal c) (pq.client_encoding c) s

  unfoldable pub conn_escape_identifier : pq.Conn → Argument py.Obj → Return py.Obj
  conn_escape_identifier c s = escaped (pq.escape_identifier c) (pq.client_encoding c) s

  unfoldable pub conn_escape_string : pq.Conn → Argument py.Obj → Return py.Obj
  conn_escape_string c s = escaped (λ t. some (pq.escape_string c t)) (pq.client_encoding c) s

  unfoldable pub conn_escape_bytea : pq.Conn → Argument py.Obj → Return py.Obj
  conn_escape_bytea c s = escaped (λ t. some (pq.escape_bytea c t)) (pq.client_encoding c) s
