-- ===== src/Query/Fields.antt =====
-- The methods of pgquery.c on the number of rows and on the fields of the result.
use py_gre_sql.Base.{
  ℕ, zero, suc, ℤ, pos, negsuc, is_minus_one, leb, Bool, false, if◌then◌else◌, List, [], ◌∷◌, Bytes,
  Option, none, some,
}
use py_gre_sql.Settings.{Settings}
use py_gre_sql.Python.{Python}
use py_gre_sql.Convert.{get_encoded_string}
use py_gre_sql.Outcome.{Outcome, null_access}
use py_gre_sql.Libpq.{Libpq}
use py_gre_sql.Format.{format_result}
use py_gre_sql.Conn.{
  Return, gives, raises, undefined, ◌>>=◌, integer_expected, invalid_number, name_expected,
  unknown_name, unknown_index, field_expected, not_encoded,
}
use py_gre_sql.Query.{Query}

-- the argument of `fieldinfo`
pub data FieldArg (Obj : Type 0) : Type 0 where
  byte_name : Bytes → FieldArg Obj
  text_name : Obj → FieldArg Obj
  number_arg : ℤ → FieldArg Obj
  no_field : FieldArg Obj

module _ (py : Python) (g : Settings py.Obj) (pq : Libpq) where
  unfoldable pub query_str : Query py pq → Outcome Bytes
  query_str self = format_result pq self.result

  pub query_len : Query py pq → ℕ
  query_len self = self.max_row

  pub query_ntuples : Query py pq → ℕ
  query_ntuples self = self.max_row

  -- `PyStr_FromString (PQfname (...))`, where the answer of libpq is a null pointer for a null
  -- pointer and for a column that is not there
  abbrev column_name : Option pq.Answer → ℤ → Return py.Obj
  column_name none j = undefined null_access
  column_name (some r) (negsuc j) = undefined null_access
  column_name (some r) (pos j) =
      if leb (pq.nfields r) j then undefined null_access else gives (py.str_of (pq.fname r j))

  unfoldable pub names_from : Query py pq → ℕ → ℕ → Return (List py.Obj)
  names_from self zero j = gives []
  names_from self (suc n) j = do
    name ← column_name self.result (pos j)
    rest ← names_from self n (suc j)
    gives (name ∷ rest)

  unfoldable pub query_listfields : Query py pq → Return py.Obj
  query_listfields self = names_from self self.num_fields 0 >>= λ names. gives (py.tuple_of names)

  -- `i >= self->num_fields`
  abbrev beyond : ℕ → ℤ → Bool
  beyond n (negsuc i) = false
  beyond n (pos i) = leb n i

  -- an int, or an argument of another type
  unfoldable pub query_fieldname : Query py pq → Option ℤ → Return py.Obj
  query_fieldname self none = raises integer_expected
  query_fieldname self (some i) =
      if beyond self.num_fields i then raises invalid_number else column_name self.result i

  -- `PQfnumber`, which is -1 for a null pointer
  abbrev number_of : Option pq.Answer → Bytes → ℤ
  number_of none name = negsuc 0
  number_of (some r) name = pq.fnumber r (some name)

  -- a text, or an argument of another type
  unfoldable pub query_fieldnum : Query py pq → Option Bytes → Return py.Obj
  query_fieldnum self none = raises name_expected
  query_fieldnum self (some name) =
      let num = number_of self.result name in
      if is_minus_one num then raises unknown_name else gives (py.int_of num)

  abbrev info_of : Option pq.Answer → ℕ → Return py.Obj
  info_of none j = undefined null_access
  info_of (some r) j = gives (
      py.tuple_of (
        py.str_of (pq.fname r j)
        ∷ py.int_of (pos (pq.ftype r j))
        ∷ py.int_of (pq.fsize r j)
        ∷ py.int_of (pq.fmod r j)
        ∷ []))

  unfoldable pub query_build_field_info : Option pq.Answer → ℕ → Return py.Obj
  query_build_field_info res col_num = info_of res col_num

  abbrev encoded_name : Option Bytes → Return Bytes
  encoded_name none = raises not_encoded
  encoded_name (some s) = gives s

  unfoldable pub arg_number : Query py pq → FieldArg py.Obj → Return ℤ
  arg_number self (byte_name s) = gives (number_of self.result s)
  arg_number self (text_name o) = encoded_name (get_encoded_string py g o self.encoding) >>= λ s.
      gives (number_of self.result s)
  arg_number self (number_arg z) = gives z
  arg_number self no_field = raises field_expected

  abbrev info_at : Query py pq → ℤ → Return py.Obj
  info_at self (negsuc num) = raises unknown_index
  info_at self (pos num) =
      if leb self.num_fields num
      then raises unknown_index
      else query_build_field_info self.result num

  unfoldable pub field_infos : Query py pq → ℕ → ℕ → Return (List py.Obj)
  field_infos self zero j = gives []
  field_infos self (suc n) j = do
    info ← query_build_field_info self.result j
    rest ← field_infos self n (suc j)
    gives (info ∷ rest)

  -- of one field, or of all
  unfoldable pub query_fieldinfo : Query py pq → Option (FieldArg py.Obj) → Return py.Obj
  query_fieldinfo self (some field) = arg_number self field >>= info_at self
  query_fieldinfo self none =
      field_infos self self.num_fields 0 >>= λ infos. gives (py.tuple_of infos)
