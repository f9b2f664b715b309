-- ===== src/Large/Attributes.antt =====
-- The attributes of a large object (`large_getattr` of pglarge.c), and its text.
use py_gre_sql.Base.{
  Bool, true, false, ◌++◌, Bytes, Option, none, some, if◌then◌else◌, codes, is_negative,
}
use py_gre_sql.Python.{Python}
use py_gre_sql.Format.{print_decimal}
use py_gre_sql.Libpq.{Libpq}
use py_gre_sql.Types.{is_set}
use py_gre_sql.Names.{is_name, Attribute, object, parent_connection, generic}
use py_gre_sql.Large.{Large, check_lo_obj}

-- `PQerrorMessage` of a null pointer, by the documentation of libpq
abbrev pub no_connection_message : Bytes
no_connection_message = codes "connection pointer is NULL\n"

module _ (py : Python) (pq : Libpq) where
  abbrev connection_message : Option pq.Conn → Bytes
  connection_message none = no_connection_message
  connection_message (some c) = pq.error_message c

  abbrev is_usable : Large pq → Bool
  is_usable self = if is_set (check_lo_obj self 0) then false else true

  -- The exception of a failed check is cleared.
  unfoldable pub large_getattr : Large pq → Bytes → Attribute py.Obj
  large_getattr self name =
      if is_name "pgcnx" name
      then (if is_usable self then parent_connection else object py.none_obj)
      else if is_name "oid" name
      then (if is_usable self then object (py.oid_of self.lo_oid) else object py.none_obj)
      else if is_name "error" name
      then object (py.str_of (connection_message self.pgcnx.cnx))
      else generic

-- `str`: "%ld" of an oid, which has at most ten digits
unfoldable pub large_str : {pq : Libpq} → Large pq → Bytes
large_str self =
    let state = if is_negative self.lo_fd then codes "Closed" else codes "Opened" in
    state ++ codes " large object, oid " ++ print_decimal 10 self.lo_oid
