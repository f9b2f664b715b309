-- ===== src/Conn/Insert/Send.antt =====
-- `conn_inserttable` of pgconn.c: the query that starts the copying, and the rows that are sent.
use py_gre_sql.Base.{
  ℕ, ◌==◌, if◌then◌else◌, Bool, true, false, List, [], ◌∷◌, ◌++◌, Bytes, Option, none, some, length,
  codes,
}
use py_gre_sql.Settings.{Settings}
use py_gre_sql.Python.{Python}
use py_gre_sql.Convert.{get_encoded_string}
use py_gre_sql.Outcome.{uninitialised, null_access, use_after_free}
use py_gre_sql.Format.{put_text}
use py_gre_sql.Libpq.{Libpq}
use py_gre_sql.Conn.{
  ConnObject, Return, gives, raises, undefined, unfinished, ◌>>=◌, of_outcome, not_connected,
  string_expected, not_encoded, rows_expected, row_expected, columns_expected, sizes_differ,
  message_raised, max_buffer_size,
}
use py_gre_sql.Conn.Methods.{set_cnx}
use py_gre_sql.Conn.Insert.{Value, insert_line}

-- an item of the list of rows: a list or tuple, or another object
pub data Row (Obj : Type 0) : Type 0 where
  row_items : List (Value Obj) → Row Obj
  no_row : Row Obj

-- an item of the list of columns
pub data ColumnName (Obj : Type 0) : Type 0 where
  bytes_column : Bytes → ColumnName Obj
  text_column : Obj → ColumnName Obj
  other_column : ColumnName Obj

module _ (py : Python) (g : Settings py.Obj) (pq : Libpq) where
  -- `sprintf` to the buffer, without a bound
  abbrev print : Bytes → Bytes → Return Bytes
  print s out = of_outcome (put_text max_buffer_size (length s) s out)

  abbrev identifier : Option Bytes → Return Bytes
  identifier none = undefined null_access
  identifier (some s) = gives s

  -- A text has been freed where its bytes are used, and for an object of another type the loop goes
  -- on with a variable that is not set.
  abbrev column_text : ℕ → ColumnName py.Obj → Return Bytes
  column_text encoding (bytes_column s) = gives s
  column_text encoding (text_column o) = elim (get_encoded_string py g o encoding) [
    | none ↦ raises not_encoded
    | some s ↦ undefined use_after_free
  ]
  column_text encoding other_column = undefined uninitialised

  abbrev separator : List (ColumnName py.Obj) → Bytes
  separator [] = codes ")"
  separator (c ∷ cs) = codes ","

  unfoldable pub insert_columns : pq.Conn → ℕ → List (ColumnName py.Obj) → Bytes → Return Bytes
  insert_columns c encoding [] out = gives out
  insert_columns c encoding (n ∷ ns) out = do
    name ← column_text encoding n
    col ← identifier (pq.escape_identifier c name)
    next ← print (col ++ separator ns) out
    insert_columns c encoding ns next

  abbrev put_list : pq.Conn → ℕ → Option (List (ColumnName py.Obj)) → Bytes → Return Bytes
  put_list c encoding none out = gives out
  put_list c encoding (some ns) out =
      print (codes " (") out >>= λ next. insert_columns c encoding ns next

  -- the query that starts the copying
  unfoldable pub copy_query : pq.Conn → ℕ → Bytes → Option (List (ColumnName py.Obj)) → Return Bytes
  copy_query c encoding table columns = do
    name ← identifier (pq.escape_identifier c table)
    start ← print (codes "copy " ++ name) []
    named ← put_list c encoding columns start
    print (codes " from stdin") named

  -- `PQputline`, or the message of the connection and the end of the copying
  abbrev send_line :
      ConnObject py pq
      → pq.Conn × Bool
      → (pq.Conn → ConnObject py pq × Return Unit)
      → ConnObject py pq × Return Unit
  send_line self (c, true) next =
      (set_cnx py g pq self (pq.end_copy c).0, raises (message_raised (pq.error_message c)))
  send_line self (c, false) next = next c

  abbrev end_copying : ConnObject py pq → pq.Conn × Bool → ConnObject py pq × Return Unit
  end_copying self (c, true) =
      (set_cnx py g pq self c, raises (message_raised (pq.error_message c)))
  end_copying self (c, false) = (set_cnx py g pq self c, gives tt)

  abbrev bind_line :
      ConnObject py pq
      → pq.Conn
      → Return Bytes
      → (Bytes → ConnObject py pq × Return Unit)
      → ConnObject py pq × Return Unit
  bind_line self c (gives s) next = next s
  bind_line self c (raises e) next = (set_cnx py g pq self c, raises e)
  bind_line self c (undefined f) next = (set_cnx py g pq self c, undefined f)
  bind_line self c unfinished next = (set_cnx py g pq self c, unfinished)

  -- the size of a row against that of the first
  abbrev same_size : Option ℕ → ℕ → Bool
  same_size none j = true
  same_size (some n) j = j == n

  -- The rows from one on: the first sets their size, `n`. Errors leave the copying as it is.
  unfoldable pub feed :
      ConnObject py pq → ℕ → Option ℕ → List (Row py.Obj) → pq.Conn → ConnObject py pq × Return Unit
  feed self encoding n [] c =
      send_line self (pq.put_line c (codes "\\.\n")) λ d. end_copying self (pq.end_copy d)
  feed self encoding n (no_row ∷ rows) c = (set_cnx py g pq self c, raises row_expected)
  feed self encoding n (row_items vs ∷ rows) c =
      if same_size n (length vs)
      then bind_line self c (insert_line py g pq encoding vs) (λ line.
        send_line self (pq.put_line c line) (λ d. feed self encoding (some (length vs)) rows d))
      else (set_cnx py g pq self c, raises sizes_differ)

  abbrev started :
      ConnObject py pq
      → ℕ
      → List (Row py.Obj)
      → pq.Conn × Option pq.Answer
      → ConnObject py pq × Return Unit
  started self encoding rows (c, none) =
      (set_cnx py g pq self c, raises (message_raised (pq.error_message c)))
  started self encoding rows (c, some r) = feed self encoding none rows c

  abbrev inserted :
      ConnObject py pq
      → pq.Conn
      → Bytes
      → List (Row py.Obj)
      → Option (List (ColumnName py.Obj))
      → ConnObject py pq × Return Unit
  inserted self c table rows columns =
      let encoding = pq.client_encoding c in
      bind_line self c (copy_query c encoding table columns)
        (λ query. started self encoding rows (pq.exec c query))

  -- no third argument, or another that is no list, or a list
  abbrev by_columns :
      ConnObject py pq
      → pq.Conn
      → Bytes
      → List (Row py.Obj)
      → Option (Option (List (ColumnName py.Obj)))
      → ConnObject py pq × Return Unit
  by_columns self c table rows none = inserted self c table rows none
  by_columns self c table rows (some none) = (self, raises columns_expected)
  by_columns self c table rows (some (some [])) = (self, gives tt)
  by_columns self c table rows (some (some (n ∷ ns))) = inserted self c table rows (some (n ∷ ns))

  -- a text for the table and an object, which is a list of rows or not; or other arguments
  abbrev insert_on :
      ConnObject py pq
      → Option (Bytes × Option (List (Row py.Obj)) × Option (Option (List (ColumnName py.Obj))))
      → Option pq.Conn
      → ConnObject py pq × Return Unit
  insert_on self args none = (self, raises not_connected)
  insert_on self none (some c) = (self, raises string_expected)
  insert_on self (some (table, none, columns)) (some c) = (self, raises rows_expected)
  insert_on self (some (table, some rows, columns)) (some c) = by_columns self c table rows columns

  unfoldable pub conn_inserttable :
      ConnObject py pq
      → Option (Bytes × Option (List (Row py.Obj)) × Option (Option (List (ColumnName py.Obj))))
      → ConnObject py pq × Return Unit
  conn_inserttable self args = insert_on self args self.base.cnx
