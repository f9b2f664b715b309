-- ===== src/Elements.antt =====
-- What the array and record parsers of pginternal.c do with the text of an element: the internal
-- cast by its type's code, or the external cast by a function.
pub mod Laws
mod Tests
use Prim.Native.Nat.{bit_and}
use py_gre_sql.Base.{
  ℕ, ◌-◌, Bool, not, List, [], ◌∷◌, Bytes, Option, none, some, ◌==◌, if◌then◌else◌,
}
use py_gre_sql.Settings.{Settings}
use py_gre_sql.Types.{pygres_text, pygres_array}
use py_gre_sql.Python.{Python}
use py_gre_sql.Outcome.{Outcome, ok, ◌>>=◌}
use py_gre_sql.Convert.{get_decoded_string, cast_sized_text, cast_sized_simple}
use py_gre_sql.Array.{Maker, cast_array}

-- `type & mask`
abbrev pub has_bits : ℕ → ℕ → Bool
has_bits type mask = not (bit_and type mask == 0)

-- `type &= ~PYGRES_ARRAY; if (!type) type = PYGRES_TEXT;`, where 0 stands for no type
pub base_type : ℕ → ℕ
base_type type =
    let base = if has_bits type pygres_array then type - pygres_array else type in
    if type == 0 then 0 else if base == 0 then pygres_text else base

module _ (py : Python) (g : Settings py.Obj) (garbage : Bytes) (encoding : ℕ) where
  -- `last` is the byte behind the element
  internal_cast : ℕ → ℕ → Bytes → Option py.Obj
  internal_cast last type s =
      if has_bits type pygres_text
      then cast_sized_text py g s encoding type
      else cast_sized_simple py g garbage last s type

  -- The bytes if the encoding is ASCII, and else the decoded text, or the bytes while the exception
  -- of the decoder is not cleared.
  unfoldable pub external_text : Bytes → py.Obj
  external_text s =
      if encoding == g.encoding_ascii
      then py.bytes_of s
      else (elim (get_decoded_string py g s encoding) [
        | none ↦ py.bytes_while_pending s
        | some t ↦ t
      ])

  external_cast : Option py.Obj → Bytes → Option py.Obj
  external_cast none s = some (external_text s)
  external_cast (some cast) s = py.call cast (external_text s ∷ [])

  pub cast_element : ℕ → ℕ → Option py.Obj → Bytes → Option py.Obj
  cast_element last type cast s =
      if type == 0 then external_cast cast s else internal_cast last type s

  -- the objects of an array whose elements have the type of code `type`, or a cast function
  pub array_maker : ℕ → Option py.Obj → Maker py.Obj
  array_maker type cast = record {
    list_of = py.list_of;
    none_obj = py.none_obj;
    convert = cast_element b'"' (base_type type) cast;
  }

  -- `cast_array` as the other functions call it, with the list that it returns as one object
  pub cast_array_value : ℕ → Option py.Obj → ℕ → ℕ → Bytes → Outcome py.Obj
  cast_array_value type cast delim last s = do
    items ← cast_array (array_maker type cast) delim last s
    ok (py.list_of items)
