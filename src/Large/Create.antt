-- ===== src/Large/Create.antt =====
-- The methods of pgconn.c that make large objects.
use py_gre_sql.Base.{
  ℕ, zero, suc, ◌-◌, ◌%◌, ◌^◌, ℤ, pos, negsuc, Bytes, Option, none, some, inl, inr,
}
use py_gre_sql.Libpq.{Libpq}
use py_gre_sql.Source.{Connection, Failure, check_cnx_obj}
use py_gre_sql.Large.{
  LargeServer, Large, large_new, Tried, cnx_closed, null_oid, bad_argument, create_failed,
}

module _ {pq : Libpq} (lo : LargeServer pq) where
  -- The object shares the connection.
  abbrev made : Connection pq → pq.Conn × ℕ → Connection pq × Tried (Large pq)
  made self (c, zero) = (record self { cnx = some c }, inl create_failed)
  made self (c, suc oid) = let s = record self { cnx = some c } in (s, inr (large_new s (suc oid)))

  abbrev behind_check :
      Connection pq
      → Option Failure
      → Option pq.Conn
      → (pq.Conn → Connection pq × Tried (Large pq))
      → Connection pq × Tried (Large pq)
  behind_check self none (some c) body = body c
  behind_check self _ _ body = (self, inl cnx_closed)

  abbrev when_connected :
      Connection pq
      → (pq.Conn → Connection pq × Tried (Large pq))
      → Connection pq × Tried (Large pq)
  when_connected self body = behind_check self (check_cnx_obj self) self.cnx body

  -- `none` is an argument of another type, here and below
  abbrev create_on : Connection pq → Option ℤ → pq.Conn → Connection pq × Tried (Large pq)
  create_on self none c = (self, inl bad_argument)
  create_on self (some mode) c = made self (lo.lo_creat c mode)

  unfoldable pub conn_locreate : Connection pq → Option ℤ → Connection pq × Tried (Large pq)
  conn_locreate self mode = when_connected self (create_on self mode)

  -- `(Oid) oid`
  abbrev pub oid_of_int : ℤ → ℕ
  oid_of_int (pos n) = n % 2 ^ 32
  oid_of_int (negsuc n) = 2 ^ 32 - 1 - n % 2 ^ 32

  abbrev known : Connection pq → ℕ → Connection pq × Tried (Large pq)
  known self zero = (self, inl null_oid)
  known self (suc oid) = (self, inr (large_new self (suc oid)))

  abbrev known_on : Connection pq → Option ℤ → pq.Conn → Connection pq × Tried (Large pq)
  known_on self none c = (self, inl bad_argument)
  known_on self (some z) c = known self (oid_of_int z)

  unfoldable pub conn_getlo : Connection pq → Option ℤ → Connection pq × Tried (Large pq)
  conn_getlo self oid = when_connected self (known_on self oid)

  abbrev import_on : Connection pq → Option Bytes → pq.Conn → Connection pq × Tried (Large pq)
  import_on self none c = (self, inl bad_argument)
  import_on self (some name) c = made self (lo.lo_import c name)

  unfoldable pub conn_loimport : Connection pq → Option Bytes → Connection pq × Tried (Large pq)
  conn_loimport self name = when_connected self (import_on self name)
