-- ===== src/Settings.antt =====
-- The module variables of pgmodule.c that steer the conversions, and the functions of the module
-- that read and write them. A Python argument is what the function's argument parsing makes of it.
pub mod Laws
mod Tests
use py_gre_sql.Base.{
  ℕ, Bool, true, false, not, ◌&&◌, ◌||◌, [], ◌∷◌, Bytes, Option, none, some, ◌==◌, if◌then◌else◌,
  codes,
}
use py_gre_sql.DateStyle.{date_style_to_format, date_format_to_style}

-- `decimal` and `jsondecode` are callables; `decimal_point` is a char, 0 for none; the three
-- encodings are libpq's numbers for UTF-8, Latin-1 and ASCII.
pub record Settings (Obj : Type 0) : Type 0 where
  pub decimal : Option Obj
  pub jsondecode : Option Obj
  pub date_format : Option Bytes
  pub decimal_point : ℕ
  pub bool_as_text : Bool
  pub array_as_text : Bool
  pub bytea_escaped : Bool
  pub encoding_utf8 : ℕ
  pub encoding_latin1 : ℕ
  pub encoding_ascii : ℕ

-- `none` is the TypeError of a bad argument, which changes nothing.
abbrev pub Set : Type 0 → Type 0
Set Obj = Option (Settings Obj)

-- `strchr (marks, c)` for a byte that is not 0
unfoldable pub contains : ℕ → Bytes → Bool
contains c [] = false
contains c (d ∷ s) = d == c || contains c s

abbrev pub decimal_marks : Bytes
decimal_marks = codes ".,;: '*/_`|"

-- a Python value as the argument of a setter that takes a callable or None
pub data Callable (Obj : Type 0) : Type 0 where
  none_given : Callable Obj
  callable : Obj → Callable Obj
  not_callable : Callable Obj

module _ {Obj : Type 0} (g : Settings Obj) where
  -- a text (or None), or an argument of another type
  pub set_datestyle : Option (Option Bytes) → Set Obj
  set_datestyle none = none
  set_datestyle (some none) = some (record g { date_format = none })
  set_datestyle (some (some s)) =
      some (record g { date_format = some (date_style_to_format (some s)) })

  pub get_datestyle : Option Bytes
  get_datestyle = elim g.date_format [ none ↦ none | some f ↦ some (date_format_to_style (some f)) ]

  pub get_decimal_point : Option Bytes
  get_decimal_point = if g.decimal_point == 0 then none else some (g.decimal_point ∷ [])

  -- None and the empty text switch it off; else it takes one byte of the decimal marks.
  pub set_decimal_point : Option (Option Bytes) → Set Obj
  set_decimal_point none = none
  set_decimal_point (some none) = some (record g { decimal_point = 0 })
  set_decimal_point (some (some [])) = some (record g { decimal_point = 0 })
  set_decimal_point (some (some (c ∷ []))) =
      if contains c decimal_marks then some (record g { decimal_point = c }) else none
  set_decimal_point (some (some (c ∷ d ∷ s))) = none

  pub get_decimal : Option Obj
  get_decimal = g.decimal

  pub set_decimal : Callable Obj → Set Obj
  set_decimal none_given = some (record g { decimal = none })
  set_decimal (callable f) = some (record g { decimal = some f })
  set_decimal not_callable = none

  pub get_bool : Bool
  get_bool = not g.bool_as_text

  -- the argument as an int, or another type
  pub set_bool : Option ℕ → Set Obj
  set_bool none = none
  set_bool (some i) = some (record g { bool_as_text = i == 0 })

  pub get_array : Bool
  get_array = not g.array_as_text

  pub set_array : Option ℕ → Set Obj
  set_array none = none
  set_array (some i) = some (record g { array_as_text = i == 0 })

  pub get_bytea_escaped : Bool
  get_bytea_escaped = g.bytea_escaped

  pub set_bytea_escaped : Option ℕ → Set Obj
  set_bytea_escaped none = none
  set_bytea_escaped (some i) = some (record g { bytea_escaped = not (i == 0) })

  pub get_jsondecode : Option Obj
  get_jsondecode = g.jsondecode

  pub set_jsondecode : Callable Obj → Set Obj
  set_jsondecode none_given = some (record g { jsondecode = none })
  set_jsondecode (callable f) = some (record g { jsondecode = some f })
  set_jsondecode not_callable = none
