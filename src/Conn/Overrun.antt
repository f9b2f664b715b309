-- ===== src/Conn/Overrun.antt =====
-- The query that starts the copying of inserttable, which is written without regard to the size of
-- the buffer.
use py_gre_sql.Base.{
  ℕ, ◌≤◌, List, [], ◌++◌, Bytes, none, some, length, length-append, codes, ◌≡◌, refl, arith,
}
use py_gre_sql.Settings.{Settings}
use py_gre_sql.Python.{Python}
use py_gre_sql.Outcome.{buffer_overflow}
use py_gre_sql.Format.Padding.{put_text-overflow}
use py_gre_sql.Libpq.{Libpq}
use py_gre_sql.Conn.{ConnObject, undefined, max_buffer_size}
use py_gre_sql.Conn.Insert.Send.{Row, conn_inserttable, copy_query}

module _ (py : Python) (g : Settings py.Obj) (pq : Libpq) where
  copy_query-overflow :
      (c : pq.Conn) (encoding : ℕ) (table name : Bytes)
      → pq.escape_identifier c table ≡ some name
      → 8187 ≤ length name
      → copy_query py g pq c encoding table none ≡ undefined buffer_overflow
  unfolding copy_query
  copy_query-overflow c encoding table name k l =
      let text = codes "copy " ++ name in
      let full =
        put_text-overflow max_buffer_size (length text) text []
          (omega (arith, length-append (codes "copy ") name)) in
      rw k (rw full refl)

  -- For a table whose name, escaped as an identifier, has 8187 bytes or more: inserttable writes
  -- past the end of its buffer, with any rows.
  pub inserttable_overrun :
      (self : ConnObject py pq) (c : pq.Conn) (table name : Bytes) (rows : List (Row py.Obj))
      → self.base.cnx ≡ some c
      → pq.escape_identifier c table ≡ some name
      → 8187 ≤ length name
      → (conn_inserttable py g pq self (some (table, some rows, none))).1
        ≡ undefined buffer_overflow
  unfolding conn_inserttable
  inserttable_overrun self c table name rows h k l =
      rw (h, copy_query-overflow c (pq.client_encoding c) table name k l) refl
