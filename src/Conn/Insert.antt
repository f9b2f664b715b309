-- ===== src/Conn/Insert.antt =====
-- `conn_inserttable` of pgconn.c: a row is written as a line of COPY into a buffer.
pub mod Text
pub mod Copied
pub mod Lines
pub mod Reading
pub mod Send
pub mod Bounds
use py_gre_sql.Base.{
  ℕ, zero, suc, ◌+◌, ◌-◌, ◌<◌, leb, ltb, ◌==◌, if◌then◌else◌, Bool, true, false, not, ◌&&◌, ◌||◌,
  List, [], ◌∷◌, ◌++◌, Bytes, Option, none, some, length, codes,
}
use py_gre_sql.Settings.{Settings}
use py_gre_sql.Python.{Python}
use py_gre_sql.Convert.{get_encoded_string}
use py_gre_sql.Outcome.{Outcome, uninitialised, null_access, use_after_free}
use py_gre_sql.Format.{put_byte, put_text, sub_size}
use py_gre_sql.Libpq.{Libpq}
use py_gre_sql.Conn.{
  ConnObject, Return, gives, raises, undefined, unfinished, ◌>>=◌, of_outcome, not_connected,
  string_expected, not_encoded, rows_expected, row_expected, columns_expected, sizes_differ,
  out_of_memory, message_raised, max_buffer_size,
}
use py_gre_sql.Conn.Methods.{set_cnx}

-- an item of a row: None, bytes, a text, an int, or another object
pub data Value (Obj : Type 0) : Type 0 where
  none_item : Value Obj
  bytes_item : Bytes → Value Obj
  text_item : Obj → Value Obj
  int_item : Obj → Value Obj
  other_item : Obj → Value Obj

-- the text in front of `bufpt`, and `bufsiz`
abbrev pub Buffer : Type 0
Buffer = Bytes × ℕ

unfoldable pub is_copy_special : ℕ → Bool
is_copy_special c = c == b'\\' || c == b'\t' || c == b'\n'

-- `*bufpt++ = c; --bufsiz;`
unfoldable pub put : ℕ → Buffer → Return Buffer
put c (out, room) =
    of_outcome (put_byte max_buffer_size c out) >>= λ next. gives (next, sub_size room 1)

-- `if (!bufsiz) break;`
abbrev pub if_room : Buffer → (Buffer → Return Buffer) → Return Buffer
if_room (out, zero) next = gives (out, 0)
if_room (out, suc room) next = next (out, suc room)

-- The loops over the bytes of a C string, with backslashes in front of special bytes or without.
unfoldable pub copy : Bool → Bytes → Buffer → Return Buffer
copy escaping [] b = gives b
copy escaping (c ∷ t) (out, zero) = gives (out, 0)
copy escaping (c ∷ t) (out, suc room) =
    if c == 0
    then gives (out, suc room)
    else if escaping && is_copy_special c
    then (put b'\\' (out, suc room) >>= λ b. if_room b λ d. put c d >>= λ e. copy escaping t e)
    else (put c (out, suc room) >>= λ d. copy escaping t d)

-- for None, where two bytes and the zero must fit
unfoldable pub put_null : Buffer → Return Buffer
put_null (out, room) =
    if ltb 2 room then (put b'\\' (out, room) >>= λ b. put b'N' b) else gives (out, 0)

module _ (py : Python) (g : Settings py.Obj) (pq : Libpq) where
  -- `PyStr_AsString` of a null pointer where there is no text
  abbrev copy_form : Bool → Option Bytes → Buffer → Return Buffer
  copy_form escaping none b = undefined null_access
  copy_form escaping (some s) b = copy escaping s b

  abbrev copy_encoded : Option Bytes → Buffer → Return Buffer
  copy_encoded none b = raises not_encoded
  copy_encoded (some s) b = copy true s b

  unfoldable pub insert_value : ℕ → Value py.Obj → Buffer → Return Buffer
  insert_value encoding none_item b = put_null b
  insert_value encoding (bytes_item s) b = copy true s b
  insert_value encoding (text_item o) b = copy_encoded (get_encoded_string py g o encoding) b
  insert_value encoding (int_item o) b = copy_form false (py.str_form o) b
  insert_value encoding (other_item o) b = copy_form true (py.repr_form o) b

  abbrev pub enough : Buffer → Return Buffer
  enough (out, zero) = raises out_of_memory
  enough (out, suc room) = gives (out, suc room)

  -- an item, and the check behind it
  unfoldable pub put_item : ℕ → Value py.Obj → Buffer → Return Buffer
  put_item encoding v b = insert_value encoding v b >>= λ filled. enough filled

  -- the items of a row, with a tab in front of all but the first
  unfoldable pub put_values : ℕ → List (Value py.Obj) → Buffer → Return Buffer
  put_values encoding [] b = gives b
  put_values encoding (v ∷ vs) b = do
    tabbed ← put b'\t' b
    filled ← put_item encoding v tabbed
    put_values encoding vs filled

  abbrev pub put_row : ℕ → List (Value py.Obj) → Buffer → Return Buffer
  put_row encoding [] b = gives b
  put_row encoding (v ∷ vs) b = do filled ← put_item encoding v b; put_values encoding vs filled

  -- the line that is sent, behind which a zero is written
  unfoldable pub insert_line : ℕ → List (Value py.Obj) → Return Bytes
  insert_line encoding vs = do
    filled ← put_row encoding vs ([], max_buffer_size - 1)
    line ← of_outcome (put_byte max_buffer_size b'\n' filled.0)
    ended ← of_outcome (put_byte max_buffer_size 0 line)
    gives line
