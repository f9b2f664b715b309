-- ===== src/Convert.antt =====
-- The functions of pginternal.c that cast one value, for Python 3: `get_decoded_string`,
-- `cast_bytea_text`, `cast_sized_text`, `cast_other`, `cast_sized_simple`, `cast_unsized_simple`,
-- and what the array and record parsers do with an element.
pub mod Money
pub mod Sized
mod Tests
use Prim.Native.Nat.{bit_and}
use py_gre_sql.Base.{
  ℕ, zero, suc, ◌+◌, Bool, true, false, not, ◌||◌, ◌&&◌, List, [], ◌∷◌, ◌++◌, Bytes, Option, none,
  some, ◌==◌, leb, ltb, if◌then◌else◌, take,
}
use py_gre_sql.Dimensions.{deref, is_digit}
use py_gre_sql.Settings.{Settings}
use py_gre_sql.Types.{
  pygres_int, pygres_long, pygres_float, pygres_decimal, pygres_money, pygres_bool, pygres_text,
  pygres_bytea, pygres_json, is_set,
}
use py_gre_sql.Python.{Python, Codec, utf8, latin1, ascii, named}

-- `sizeof (buf) / sizeof (buf[0]) - 1`
abbrev pub buffer_room : ℕ
buffer_room = 63

-- one byte of a money value: what goes to the buffer
unfoldable pub money_byte : ℕ → ℕ → Option ℕ
money_byte point c =
    if is_digit c
    then some c
    else if c == point
    then some b'.'
    else if c == b'(' || c == b'-'
    then some b'-'
    else none

-- The loop of `cast_sized_simple` over the bytes of a money value, with the room that is left in
-- the buffer.
unfoldable pub money_digits : ℕ → ℕ → Bytes → Bytes
money_digits point zero s = []
money_digits point (suc room) [] = []
money_digits point (suc room) (c ∷ s) = elim (money_byte point c) [
  | some d ↦ d ∷ money_digits point room s
  | none ↦ money_digits point (suc room) s
]

-- The loop of `cast_unsized_simple`, which ends at the zero byte of the value or with the room.
unfoldable pub unsized_money_byte : ℕ → ℕ → Option ℕ
unsized_money_byte point c =
    if leb b'0' c && leb c b'9'
    then some c
    else if c == point
    then some b'.'
    else if c == b'(' || c == b'-'
    then some b'-'
    else none

unfoldable pub unsized_money_digits : ℕ → Bytes → ℕ → Bytes
unsized_money_digits point [] room = []
unsized_money_digits point (c ∷ s) zero = []
unsized_money_digits point (c ∷ s) (suc room) = elim (unsized_money_byte point c) [
  | some d ↦ d ∷ unsized_money_digits point s room
  | none ↦ unsized_money_digits point s (suc room)
]

abbrev pub bind_option {ℓ κ} : {A : Type ℓ} {B : Type κ} → Option A → (A → Option B) → Option B
bind_option none f = none
bind_option (some a) f = f a

abbrev pub or_else {ℓ} : {A : Type ℓ} → Option A → A → A
or_else none d = d
or_else (some a) d = a

module _ (py : Python) (g : Settings py.Obj) where
  open py use {
    Obj, encode, true_obj, false_obj, bytes_of, bytes_while_pending, str_of, decode, int_from,
    float_from, call, oid_of, unescape_bytea,
  }

  unfoldable pub codec : ℕ → Codec
  codec encoding =
      if encoding == g.encoding_utf8
      then utf8
      else if encoding == g.encoding_latin1
      then latin1
      else if encoding == g.encoding_ascii
      then ascii
      else named encoding

  unfoldable pub get_decoded_string : Bytes → ℕ → Option Obj
  get_decoded_string s encoding = decode (codec encoding) s

  pub get_encoded_string : Obj → ℕ → Option Bytes
  get_encoded_string unicode encoding = encode (codec encoding) unicode

  pub cast_bytea_text : Bytes → Obj
  cast_bytea_text s = bytes_of (unescape_bytea s)

  -- The decoded text, and else the bytes, while the exception of the decoder is not cleared.
  unfoldable pub text_or_bytes : Bytes → ℕ → Obj
  text_or_bytes s encoding = or_else (get_decoded_string s encoding) (bytes_while_pending s)

  -- with the decoder of JSON values, if it is set
  pub json_value : Bytes → ℕ → Option Obj
  json_value s encoding =
      bind_option (get_decoded_string s encoding)
        λ text. elim g.jsondecode [ none ↦ some text | some f ↦ call f (text ∷ []) ]

  unfoldable pub cast_sized_text : Bytes → ℕ → ℕ → Option Obj
  cast_sized_text s encoding type =
      if type == pygres_bytea
      then some (cast_bytea_text s)
      else if type == pygres_json
      then json_value s encoding
      else some (text_or_bytes s encoding)

  -- `cast_hook` is the external typecast function, if there is one
  pub cast_other : Bytes → ℕ → ℕ → Option Obj → Option Obj
  cast_other s encoding pgtype cast_hook =
      bind_option (cast_sized_text s encoding pygres_text) λ text. elim cast_hook [
        | none ↦ some text
        | some hook ↦ call hook (text ∷ oid_of pgtype ∷ [])
      ]

  -- a number for which Decimal is the type, if it is set
  decimal_or_float : Bytes → Option Obj
  decimal_or_float s = elim g.decimal [
    | none ↦ float_from (str_of s)
    | some f ↦ call f (str_of s ∷ [])
  ]

  -- `*s`, which is the byte behind the value where that is empty
  bool_value : ℕ → Obj
  bool_value c =
      if g.bool_as_text
      then str_of ((if c == b't' then b't' else b'f') ∷ [])
      else if c == b't'
      then true_obj
      else false_obj

  -- The text of a money value in `buf`, which ends at `buf[j]` only where `decimal` is set. Else it
  -- runs on over what the buffer held before, up to its first zero: `garbage`.
  money_text : Bytes → Bytes → Bytes
  money_text garbage s =
      if is_set g.decimal
      then money_digits g.decimal_point buffer_room s
      else money_digits g.decimal_point buffer_room s ++ garbage

  -- `last` is the byte behind the value
  pub cast_sized_simple : Bytes → ℕ → Bytes → ℕ → Option Obj
  cast_sized_simple garbage last s type =
      if type == pygres_int || type == pygres_long
      then int_from (take buffer_room s)
      else if type == pygres_float
      then float_from (str_of s)
      else if type == pygres_money
      then decimal_or_float (money_text garbage s)
      else if type == pygres_decimal
      then decimal_or_float s
      else if type == pygres_bool
      then some (bool_value (deref last s))
      else some (str_of s)

  -- on a C string
  pub cast_unsized_simple : Bytes → ℕ → Option Obj
  cast_unsized_simple s type =
      if type == pygres_int || type == pygres_long
      then int_from s
      else if type == pygres_float
      then float_from (str_of s)
      else if type == pygres_money
      then decimal_or_float (unsized_money_digits g.decimal_point s buffer_room)
      else if type == pygres_decimal
      then decimal_or_float s
      else if type == pygres_bool
      then some (bool_value (deref 0 s))
      else some (str_of s)
