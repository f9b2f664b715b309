-- ===== src/Python.antt =====
-- What the conversions call of CPython and libpq, as a parameter. Memory does not run out, and the
-- texts of numbers are ASCII, so that `PyStr_FromStringAndSize` does not fail on them.
pub mod Demo
use py_gre_sql.Base.{ℕ, ℤ, Bytes, List, Option}

-- the decoders that `get_decoded_string` chooses from; `named` is the one with libpq's name
pub data Codec : Type 0 where
  utf8 latin1 ascii : Codec
  named : ℕ → Codec

pub record Python : Type 1 where
  pub Obj : Type 0
  pub none_obj : Obj
  pub true_obj : Obj
  pub false_obj : Obj
  pub list_of : List Obj → Obj
  pub tuple_of : List Obj → Obj
  -- a dictionary whose items are set in this order, of names as texts
  pub dict_of : List (Bytes × Obj) → Obj
  -- the same with objects as keys
  pub dict_of_items : List (Obj × Obj) → Obj
  pub bytes_of : Bytes → Obj
  -- The bytes that stand for a text which cannot be decoded: they are made, and passed on, while the
  -- UnicodeDecodeError of the decoder is still set, and what is made of them has it set too. Where
  -- a method of the C module returns them, CPython raises a SystemError.
  pub bytes_while_pending : Bytes → Obj
  pub str_of : Bytes → Obj
  -- `none` is a pending exception
  pub decode : Codec → Bytes → Option Obj
  pub encode : Codec → Obj → Option Bytes
  pub int_from : Bytes → Option Obj
  pub float_from : Obj → Option Obj
  pub call : Obj → List Obj → Option Obj
  -- the text of `PyObject_Str` and of `PyObject_Repr`
  pub str_form : Obj → Option Bytes
  pub repr_form : Obj → Option Bytes
  pub int_of : ℤ → Obj
  -- the Python int of an OID
  pub oid_of : ℕ → Obj
  -- `PQunescapeBytea`, on the bytes in front of the first zero
  pub unescape_bytea : Bytes → Bytes
