-- ===== src/Names.antt =====
-- Attributes of the objects: how their names are compared, and what a look-up gives.
mod Tests
use Prim.Native.String.{String}
use py_gre_sql.Base.{◌==◌, ◌&&◌, Bool, true, false, [], ◌∷◌, Bytes, codes}

-- `!strcmp (name, "...")`, where a name is the bytes in front of its first zero
unfoldable pub eq_bytes : Bytes → Bytes → Bool
eq_bytes [] [] = true
eq_bytes (c ∷ s) (d ∷ t) = c == d && eq_bytes s t
eq_bytes _ _ = false

abbrev pub is_name : String → Bytes → Bool
is_name text name = eq_bytes (codes text) name

-- The value of an attribute: an object, the connection, None with the exception of a failed check
-- pending, or what the generic look-up gives.
pub data Attribute (Obj : Type 0) : Type 0 where
  object : Obj → Attribute Obj
  parent_connection : Attribute Obj
  none_while_pending : Attribute Obj
  generic : Attribute Obj
