-- ===== src/Conn/Attributes.antt =====
-- The attributes of connections (`conn_getattr` of pgconn.c), with SSL_INFO.
use py_gre_sql.Base.{
  ◌==◌, ℤ, pos, Bool, true, false, List, [], ◌∷◌, Bytes, Option, none, some, if◌then◌else◌, codes,
}
use py_gre_sql.Python.{Python}
use py_gre_sql.Libpq.{Libpq}
use py_gre_sql.Source.Execute.{signed_value, skip_spaces}
use py_gre_sql.Names.{is_name}
use py_gre_sql.Conn.{ConnObject, Return, gives, raises, not_connected}

-- the functions of libpq that the attributes call
pub record ConnInfo (pq : Libpq) : Type 0 where
  -- `none` is a null pointer
  pub host : pq.Conn → Option Bytes
  pub port : pq.Conn → Bytes
  pub db : pq.Conn → Bytes
  pub options : pq.Conn → Bytes
  -- CONNECTION_OK
  pub status_ok : pq.Conn → Bool
  pub user : pq.Conn → Bytes
  pub protocol_version : pq.Conn → ℤ
  pub server_version : pq.Conn → ℤ
  pub backend_pid : pq.Conn → ℤ
  pub ssl_in_use : pq.Conn → Bool
  pub ssl_attribute_names : pq.Conn → List Bytes
  pub ssl_attribute : pq.Conn → Bytes → Option Bytes

-- `atol (PQport (...))`
abbrev port_number : Bytes → ℤ
port_number s = signed_value (skip_spaces s)

-- the host, or "localhost" for the path of a socket
unfoldable pub shown_host : Option Bytes → Bytes
shown_host none = codes "localhost"
shown_host (some []) = []
shown_host (some (c ∷ s)) = if c == b'/' then codes "localhost" else c ∷ s

-- the value of an attribute, where `none` is left to the generic look-up
module _ (py : Python) (pq : Libpq) (info : ConnInfo pq) where
  abbrev ssl_value : Option Bytes → py.Obj
  ssl_value none = py.none_obj
  ssl_value (some s) = py.str_of s

  abbrev ssl_items : pq.Conn → List Bytes → List (Bytes × py.Obj)
  ssl_items c [] = []
  ssl_items c (s ∷ names) = (s, ssl_value (info.ssl_attribute c s)) ∷ ssl_items c names

  unfoldable pub get_ssl_attributes : pq.Conn → py.Obj
  get_ssl_attributes c = py.dict_of (ssl_items c (info.ssl_attribute_names c))

  abbrev bool_obj : Bool → py.Obj
  bool_obj true = py.true_obj
  bool_obj false = py.false_obj

  abbrev ssl_field : pq.Conn → Bytes → Option py.Obj
  ssl_field c name =
      if is_name "ssl_in_use" name
      then some (bool_obj (info.ssl_in_use c))
      else if is_name "ssl_attributes" name
      then some (get_ssl_attributes c)
      else none

  abbrev number_field : pq.Conn → Bytes → Option py.Obj
  number_field c name =
      if is_name "protocol_version" name
      then some (py.int_of (info.protocol_version c))
      else if is_name "server_version" name
      then some (py.int_of (info.server_version c))
      else if is_name "socket" name
      then some (py.int_of (pq.socket c))
      else if is_name "backend_pid" name
      then some (py.int_of (info.backend_pid c))
      else ssl_field c name

  unfoldable pub conn_field : pq.Conn → Bytes → Option py.Obj
  conn_field c name =
      if is_name "host" name
      then some (py.str_of (shown_host (info.host c)))
      else if is_name "port" name
      then some (py.int_of (port_number (info.port c)))
      else if is_name "db" name
      then some (py.str_of (info.db c))
      else if is_name "options" name
      then some (py.str_of (info.options c))
      else if is_name "error" name
      then some (py.str_of (pq.error_message c))
      else if is_name "status" name
      then some (py.int_of (if info.status_ok c then pos 1 else pos 0))
      else if is_name "user" name
      then some (py.str_of (info.user c))
      else number_field c name

  -- Without a connection only the method `close` is found, by the generic look-up: its name is
  -- none of the fields.
  abbrev field_of : Option pq.Conn → Bytes → Return (Option py.Obj)
  field_of none name = if is_name "close" name then gives none else raises not_connected
  field_of (some c) name = gives (conn_field c name)

  unfoldable pub conn_getattr : ConnObject py pq → Bytes → Return (Option py.Obj)
  conn_getattr self name = field_of self.base.cnx name
