-- ===== src/Record/Cast.antt =====
-- What `cast_record` of pginternal.c does with the text of a field: the internal cast by the type of
-- its column, or the external cast by one function or by that of its column.
use py_gre_sql.Base.{
  ℕ, List, [], ◌∷◌, Bytes, Option, none, some, ◌==◌, if◌then◌else◌, get_elem?, length,
}
use py_gre_sql.Settings.{Settings}
use py_gre_sql.Types.{pygres_text, pygres_array, pygres_bool}
use py_gre_sql.Python.{Python}
use py_gre_sql.Outcome.{
  Outcome, ok, err, fault, ◌>>=◌, converted, conversion_failed, read_past_end, uninitialised,
}
use py_gre_sql.Convert.{cast_sized_text, cast_sized_simple}
use py_gre_sql.Elements.{has_bits, external_text, cast_array_value}
use py_gre_sql.Record.{Maker, cast_record}

-- The argument `cast`, with the number of columns: no cast, one for all fields, or a sequence of
-- casts, of which `none` is None.
pub data FieldCasts (Obj : Type 0) : Type 0 where
  no_cast : FieldCasts Obj
  one_cast : Obj → FieldCasts Obj
  column_casts : List (Option Obj) → FieldCasts Obj

-- `len`, which is 0 where any number of fields will do
abbrev pub columns : {Obj : Type 0} → FieldCasts Obj → ℕ
columns no_cast = 0
columns (one_cast f) = 0
columns (column_casts fs) = length fs

module _ (py : Python) (g : Settings py.Obj) (garbage : Bytes) (encoding : ℕ) where
  -- A text is empty only behind quotes or a backslash, and then in a buffer that nothing is written
  -- to: the cast to a bool reads its first byte. `last` is the byte behind the field.
  abbrev simple_field : ℕ → ℕ → Bytes → Outcome py.Obj
  simple_field etype last [] =
      if etype == pygres_bool
      then fault uninitialised
      else converted (cast_sized_simple py g garbage last [] etype)
  simple_field etype last (b ∷ s) = converted (cast_sized_simple py g garbage last (b ∷ s) etype)

  unfoldable pub internal_field : ℕ → ℕ → Bytes → Outcome py.Obj
  internal_field etype last s =
      if has_bits etype pygres_array
      then cast_array_value py g garbage encoding etype none 0 last s
      else if has_bits etype pygres_text
      then converted (cast_sized_text py g s encoding etype)
      else simple_field etype last s

  -- `type[i]`
  abbrev typed_field : Option ℕ → ℕ → Bytes → Outcome py.Obj
  typed_field none last s = fault read_past_end
  typed_field (some etype) last s = internal_field etype last s

  -- `PySequence_GetItem (cast, i)`, which may be None
  abbrev pub column_field : Option (Option py.Obj) → py.Obj → Outcome py.Obj
  column_field none o = err conversion_failed
  column_field (some none) o = ok o
  column_field (some (some f)) o = converted (py.call f (o ∷ []))

  abbrev pub external_field : FieldCasts py.Obj → ℕ → py.Obj → Outcome py.Obj
  external_field no_cast i o = ok o
  external_field (one_cast f) i o = converted (py.call f (o ∷ []))
  external_field (column_casts fs) i o = column_field (get_elem? fs i) o

  -- with the types of the columns, or without
  unfoldable pub cast_field : Option (List ℕ) → FieldCasts py.Obj → ℕ → ℕ → Bytes → Outcome py.Obj
  cast_field (some types) casts i last s = typed_field (get_elem? types i) last s
  cast_field none casts i last s = external_field casts i (external_text py g garbage encoding s)

  unfoldable pub record_maker : Option (List ℕ) → FieldCasts py.Obj → Maker py.Obj
  record_maker types casts = record { none_obj = py.none_obj; convert = cast_field types casts }

  -- `cast_record` with the tuple that it returns as one object
  unfoldable pub cast_record_value :
      Option (List ℕ) → FieldCasts py.Obj → ℕ → Bytes → Outcome py.Obj
  cast_record_value types casts delim s = do
    items ← cast_record (record_maker types casts) delim (columns casts) s
    ok (py.tuple_of items)
