-- ===== src/Connect.antt =====
-- `pg_connect` of pgmodule.c, and the default connection parameters of the module with the functions
-- that read and write them (DEFAULT_VARS), for Python 3.
pub mod Missing
mod Tests
use py_gre_sql.Base.{
  ℕ, zero, suc, ℤ, pos, negsuc, ◌-◌, ◌%◌, ◌||◌, ltb, Bool, true, false, List, [], ◌∷◌, ◌++◌, Bytes,
  Option, none, some, if◌then◌else◌, codes, is_minus_one, ◌⊎◌,
}
use py_gre_sql.Settings.{Settings}
use py_gre_sql.Python.{Python}
use py_gre_sql.Errors.{Raised, internal_error, set_error}
use py_gre_sql.Format.{print_decimal}
use py_gre_sql.Libpq.{Libpq}
use py_gre_sql.Conn.{ConnObject}

-- `pg_default_host` and the others: None, or the object that `PyStr_FromString` makes, which is a
-- text in Python 3. The port is never below 0.
pub record Defaults : Type 0 where
  pub host : Option Bytes
  pub base : Option Bytes
  pub opt : Option Bytes
  pub user : Option Bytes
  pub passwd : Option Bytes
  pub port : Option ℕ

-- what the module starts with
abbrev pub initial : Defaults
initial = record { host = none; base = none; opt = none; user = none; passwd = none; port = none }

-- A setter gets a text or None, or arguments of another kind: `none` is its TypeError. It returns
-- the former value.
abbrev pub Setter : Type 0
Setter = Option (Defaults × Option Bytes)

abbrev pub get_defhost : Defaults → Option Bytes
get_defhost d = d.host

unfoldable pub set_defhost : Defaults → Option (Option Bytes) → Setter
set_defhost d none = none
set_defhost d (some s) = some (record d { host = s }, d.host)

abbrev pub get_defbase : Defaults → Option Bytes
get_defbase d = d.base

unfoldable pub set_defbase : Defaults → Option (Option Bytes) → Setter
set_defbase d none = none
set_defbase d (some s) = some (record d { base = s }, d.base)

abbrev pub get_defopt : Defaults → Option Bytes
get_defopt d = d.opt

unfoldable pub setdefopt : Defaults → Option (Option Bytes) → Setter
setdefopt d none = none
setdefopt d (some s) = some (record d { opt = s }, d.opt)

abbrev pub get_defuser : Defaults → Option Bytes
get_defuser d = d.user

unfoldable pub set_defuser : Defaults → Option (Option Bytes) → Setter
set_defuser d none = none
set_defuser d (some s) = some (record d { user = s }, d.user)

-- returns None
unfoldable pub set_defpasswd : Defaults → Option (Option Bytes) → Option Defaults
set_defpasswd d none = none
set_defpasswd d (some s) = some (record d { passwd = s })

abbrev pub get_defport : Defaults → Option ℕ
get_defport d = d.port

-- an int, where -1 stands for no default, or another argument
unfoldable pub set_defport : Defaults → Option ℤ → Option (Defaults × Option ℕ)
set_defport d none = none
set_defport d (some (pos n)) = some (record d { port = some n }, d.port)
set_defport d (some (negsuc zero)) = some (record d { port = none }, d.port)
set_defport d (some (negsuc (suc n))) = none

-- the arguments, where a port of -1 stands for none
pub record ConnectArgs : Type 0 where
  pub dbname : Option Bytes
  pub host : Option Bytes
  pub port : ℤ
  pub opt : Option Bytes
  pub user : Option Bytes
  pub passwd : Option Bytes
  pub nowait : Bool

-- the parameters as `char *`, and whether an exception is pending
pub record Params : Type 0 where
  pub host : Option Bytes
  pub port : ℤ
  pub opt : Option Bytes
  pub dbname : Option Bytes
  pub user : Option Bytes
  pub passwd : Option Bytes
  pub pending : Bool

-- `PyBytes_AsString` of a default value, for a parameter that is not given: of a text it makes a
-- null pointer and a TypeError.
abbrev pub bytes_fail : Option Bytes → Option Bytes → Bool
bytes_fail none (some s) = true
bytes_fail _ _ = false

-- `(int) PyInt_AsLong (...)`
unfoldable pub to_int : ℕ → ℤ
to_int n = let r = n % 4294967296 in if ltb r 2147483648 then pos r else negsuc (4294967295 - r)

abbrev pub default_port : ℤ → Option ℕ → ℤ
default_port z none = z
default_port z (some n) = if is_minus_one z then to_int n else z

-- A text parameter keeps its value: none of the default values is read as one.
unfoldable pub params : Defaults → ConnectArgs → Params
params d a = record {
  host = a.host;
  port = default_port a.port d.port;
  opt = a.opt;
  dbname = a.dbname;
  user = a.user;
  passwd = a.passwd;
  pending =
      bytes_fail a.host d.host
      || bytes_fail a.opt d.opt
      || bytes_fail a.dbname d.base
      || bytes_fail a.user d.user
      || bytes_fail a.passwd d.passwd;
}

abbrev pub Keywords : Type 0
Keywords = List (Bytes × Bytes)

abbrev keyword : Bytes → Option Bytes → Keywords → Keywords
keyword name none more = more
keyword name (some s) more = (name, s) ∷ more

-- "%d" of an int, which has at most ten digits
unfoldable pub int_text : ℤ → Bytes
int_text (pos n) = print_decimal 10 n
int_text (negsuc n) = b'-' ∷ print_decimal 10 (suc n)

abbrev port_keyword : ℤ → Keywords
port_keyword z = if is_minus_one z then [] else (codes "port", int_text z) ∷ []

unfoldable pub keywords : Params → Keywords
keywords p = keyword (codes "host") p.host (
    keyword (codes "options") p.opt (
      keyword (codes "dbname") p.dbname (
        keyword (codes "user") p.user (keyword (codes "password") p.passwd (port_keyword p.port)))))

-- `PQconnectdbParams`, `PQconnectStartParams`, and whether `PQstatus` is CONNECTION_BAD
pub record Connector (pq : Libpq) : Type 0 where
  pub connect_params : Keywords → pq.Conn
  pub start_params : Keywords → pq.Conn
  pub is_bad : pq.Conn → Bool

-- How `pg_connect` returns: with a connection object, with the exception of a failed connection or
-- of bad arguments, or with a connection object while an exception is pending, which CPython takes
-- for an error.
pub data Connected (py : Python) (pq : Libpq) : Type 0 where
  connected : ConnObject py pq → Connected py pq
  connection_failed : Raised → Connected py pq
  bad_arguments : Connected py pq
  connected_while_pending : ConnObject py pq → Connected py pq

module _ (py : Python) (g : Settings py.Obj) (pq : Libpq) (connector : Connector pq) where
  abbrev new_conn : pq.Conn → ConnObject py pq
  new_conn c = record {
    base = record { valid = true; cnx = some c; date_format = g.date_format };
    cast_hook = none;
    notice_receiver = none;
  }

  abbrev pub opened : Bool → Keywords → pq.Conn
  opened nowait kw = if nowait then connector.start_params kw else connector.connect_params kw

  abbrev pub connection_result : Bool → pq.Conn → Connected py pq
  connection_result pending c =
      if connector.is_bad c
      then connection_failed (
          set_error g.encoding_ascii internal_error (codes "Cannot connect")
            (record { message = some (pq.error_message c, pq.client_encoding c); state = none }))
      else if pending
      then connected_while_pending (new_conn c)
      else connected (new_conn c)

  abbrev pub connect_with : Bool → Params → Connected py pq
  connect_with nowait p = connection_result p.pending (opened nowait (keywords p))

  unfoldable pub pg_connect : Defaults → Option ConnectArgs → Connected py pq
  pg_connect d none = bad_arguments
  pg_connect d (some a) = connect_with a.nowait (params d a)
