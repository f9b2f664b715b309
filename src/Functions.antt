-- ===== src/Functions.antt =====
-- The functions of pgmodule.c around the parsers of arrays, records and hstore values, and the
-- escape functions that need no connection. The texts are shorter than 2^62 bytes, so that the size
-- of the buffer for an escaped text does not overflow.
pub mod Columns
pub mod Defined
mod Tests
use py_gre_sql.Base.{ℕ, List, [], ◌∷◌, Bytes, Option, none, some}
use py_gre_sql.Settings.{Settings, Callable, none_given, callable, not_callable}
use py_gre_sql.Python.{Python, utf8}
use py_gre_sql.Convert.{get_encoded_string, get_decoded_string, text_or_bytes}
use py_gre_sql.Elements.{cast_array_value}
use py_gre_sql.Record.Cast.{FieldCasts, no_cast, one_cast, column_casts, cast_record_value}
use py_gre_sql.Hstore.{Entry, cast_hstore}
use py_gre_sql.Source.{Argument, byte_string, unicode}
use py_gre_sql.Conn.{
  Return, gives, raises, ◌>>=◌, of_outcome, of_option, string_expected, not_encoded,
  callable_expected,
}

-- the second argument of `cast_record`: none or None, a callable, a tuple or list, or another object
pub data RecordCast (Obj : Type 0) : Type 0 where
  cast_missing : RecordCast Obj
  cast_callable : Obj → RecordCast Obj
  cast_items : List (Option Obj) → RecordCast Obj
  cast_unusable : RecordCast Obj

-- `PQescapeString` and `PQescapeBytea`
pub record Escapes : Type 0 where
  pub escape_string : Bytes → Bytes
  pub escape_bytea : Bytes → Bytes

module _ (py : Python) (g : Settings py.Obj) where
  abbrev pub encoded : Option Bytes → Return Bytes
  encoded none = raises not_encoded
  encoded (some s) = gives s

  -- a text is encoded in ASCII, and what is made of it decoded
  unfoldable pub escape_argument : (Bytes → Bytes) → Argument py.Obj → Return py.Obj
  escape_argument escape (byte_string s) = gives (py.bytes_of (escape s))
  escape_argument escape (unicode o) = encoded (get_encoded_string py g o g.encoding_ascii) >>= λ s.
      of_option (get_decoded_string py g (escape s) g.encoding_ascii)
  escape_argument escape _ = raises string_expected

  unfoldable pub pg_escape_string : Escapes → Argument py.Obj → Return py.Obj
  pg_escape_string e string = escape_argument (e.escape_string) string

  unfoldable pub pg_escape_bytea : Escapes → Argument py.Obj → Return py.Obj
  pg_escape_bytea e data_ = escape_argument (e.escape_bytea) data_

  unfoldable pub pg_unescape_bytea : Argument py.Obj → Return py.Obj
  pg_unescape_bytea (byte_string s) = gives (py.bytes_of (py.unescape_bytea s))
  pg_unescape_bytea (unicode o) = encoded (get_encoded_string py g o g.encoding_ascii) >>= λ s.
      gives (py.bytes_of (py.unescape_bytea s))
  pg_unescape_bytea _ = raises string_expected

  -- The bytes of the first argument and their encoding: those of a text are its UTF-8.
  unfoldable pub string_argument : Argument py.Obj → Return (Bytes × ℕ)
  string_argument (byte_string s) = gives (s, g.encoding_ascii)
  string_argument (unicode o) = encoded (py.encode utf8 o) >>= λ s. gives (s, g.encoding_utf8)
  string_argument _ = raises string_expected

  unfoldable pub array_cast : Callable py.Obj → Return (Option py.Obj)
  array_cast none_given = gives none
  array_cast (callable f) = gives (some f)
  array_cast not_callable = raises callable_expected

  -- Behind the text stands a zero byte.
  unfoldable pub pg_cast_array : Bytes → Argument py.Obj → Callable py.Obj → ℕ → Return py.Obj
  pg_cast_array garbage string cast delim = do
    (s, encoding) ← string_argument string
    f ← array_cast cast
    of_outcome (cast_array_value py g garbage encoding 0 f delim 0 s)

  -- the value of an entry, which is None for NULL
  abbrev entry_value : ℕ → Option Bytes → py.Obj
  entry_value encoding none = py.none_obj
  entry_value encoding (some s) = text_or_bytes py g s encoding

  unfoldable pub hstore_items : ℕ → List Entry → List (py.Obj × py.Obj)
  hstore_items encoding [] = []
  hstore_items encoding ((key, value) ∷ l) =
      (text_or_bytes py g key encoding, entry_value encoding value) ∷ hstore_items encoding l

  unfoldable pub pg_cast_hstore : Argument py.Obj → Return py.Obj
  pg_cast_hstore string = do
    (s, encoding) ← string_argument string
    l ← of_outcome (cast_hstore s)
    gives (py.dict_of_items (hstore_items encoding l))

  -- An empty sequence is no cast.
  unfoldable pub record_casts : RecordCast py.Obj → Return (FieldCasts py.Obj)
  record_casts cast_missing = gives no_cast
  record_casts (cast_callable f) = gives (one_cast f)
  record_casts (cast_items []) = gives no_cast
  record_casts (cast_items (f ∷ fs)) = gives (column_casts (f ∷ fs))
  record_casts cast_unusable = raises callable_expected

  unfoldable pub pg_cast_record : Bytes → Argument py.Obj → RecordCast py.Obj → ℕ → Return py.Obj
  pg_cast_record garbage string cast delim = do
    (s, encoding) ← string_argument string
    casts ← record_casts cast
    of_outcome (cast_record_value py g garbage encoding none casts delim s)
