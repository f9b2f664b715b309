-- ===== src/Python/Demo.antt =====
-- Concrete objects and settings for the tests: a text is itself, bytes that stand for an undecoded
-- text begin with a mark, and a call gives its last argument.
use py_gre_sql.Base.{
  List, [], ◌∷◌, ◌++◌, Bytes, Option, none, some, false, codes, pos_part, Bool, true, ◌&&◌, ltb,
  if◌then◌else◌,
}
use py_gre_sql.Python.{Python}
use py_gre_sql.Settings.{Settings}

abbrev pub joined : List Bytes → Bytes
joined [] = []
joined (x ∷ xs) = x ++ b';' ∷ joined xs

abbrev pub joined_items : List (Bytes × Bytes) → Bytes
joined_items [] = []
joined_items (x ∷ xs) = x.0 ++ b':' ∷ x.1 ++ b';' ∷ joined_items xs

abbrev pub last_of : List Bytes → Option Bytes
last_of [] = none
last_of (x ∷ []) = some x
last_of (x ∷ y ∷ xs) = last_of (y ∷ xs)

-- The decoders know the bytes below 128 only.
abbrev pub is_ascii : Bytes → Bool
is_ascii [] = true
is_ascii (c ∷ s) = ltb c 128 && is_ascii s

abbrev pub demo : Python
demo = record {
  Obj = Bytes;
  none_obj = codes "None";
  true_obj = codes "True";
  false_obj = codes "False";
  list_of = joined;
  tuple_of = joined;
  dict_of = joined_items;
  dict_of_items = joined_items;
  bytes_of = λ s. s;
  bytes_while_pending = λ s. codes "pending:" ++ s;
  str_of = λ s. s;
  decode = λ c s. if is_ascii s then some s else none;
  encode = λ c s. some s;
  int_from = λ s. some s;
  float_from = λ s. some s;
  call = λ f xs. last_of xs;
  str_form = λ s. some s;
  repr_form = λ s. some s;
  int_of = λ z. pos_part z ∷ [];
  oid_of = λ n. n ∷ [];
  unescape_bytea = λ s. s;
}

-- the module's settings at its start, with a class for `decimal` or without
abbrev pub demo_settings : Option Bytes → Settings Bytes
demo_settings decimal = record {
  decimal = decimal;
  jsondecode = none;
  date_format = none;
  decimal_point = b'.';
  bool_as_text = false;
  array_as_text = false;
  bytea_escaped = false;
  encoding_utf8 = 6;
  encoding_latin1 = 8;
  encoding_ascii = 0;
}
