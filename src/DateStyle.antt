-- ===== src/DateStyle.antt =====
-- `date_style_to_format` and `date_format_to_style` of pginternal.c, between PostgreSQL's
-- DateStyle setting and Python's date formats. `none` is the null pointer, and a C string is the
-- bytes before its zero, which is what `deref 0` reads at its end.
pub mod Laws
use py_gre_sql.Base.{ℕ, [], ◌∷◌, Bytes, Option, none, some, ◌==◌, if◌then◌else◌, codes}
use py_gre_sql.Scan.{skip_blanks}
use py_gre_sql.Dimensions.{deref}

-- the entries of `formats`, and of `datestyle` in the same order
pub data Style : Type 0 where
  iso postgres_mdy postgres_dmy sql_mdy sql_dmy german : Style

unfoldable pub formats : Style → Bytes
formats iso = codes "%Y-%m-%d"
formats postgres_mdy = codes "%m-%d-%Y"
formats postgres_dmy = codes "%d-%m-%Y"
formats sql_mdy = codes "%m/%d/%Y"
formats sql_dmy = codes "%d/%m/%Y"
formats german = codes "%d.%m.%Y"

unfoldable pub datestyle : Style → Bytes
datestyle iso = codes "ISO, YMD"
datestyle postgres_mdy = codes "Postgres, MDY"
datestyle postgres_dmy = codes "Postgres, DMY"
datestyle sql_mdy = codes "SQL, MDY"
datestyle sql_dmy = codes "SQL, DMY"
datestyle german = codes "German, DMY"

-- behind `strchr (s, ',')`, the comma and the blanks; the end where there is no comma
after_comma : Bytes → Bytes
after_comma [] = []
after_comma (c ∷ s) = let rest = after_comma s in if c == b',' then skip_blanks s else rest

abbrev chosen_by_day : Bytes → Style → Style → Style
chosen_by_day s dmy mdy = if deref 0 (after_comma s) == b'D' then dmy else mdy

style_of : Option Bytes → Style
style_of none = iso
style_of (some []) = iso
style_of (some (c ∷ s)) =
    if c == b'P'
    then chosen_by_day s postgres_dmy postgres_mdy
    else if c == b'S'
    then chosen_by_day s sql_dmy sql_mdy
    else if c == b'G'
    then german
    else iso

pub date_style_to_format : Option Bytes → Bytes
date_style_to_format s = formats (style_of s)

-- the switches on `s[1]` and `s[2]`
format_style : Option Bytes → Style
format_style (some (_ ∷ c ∷ s)) =
    if c == b'm'
    then (if deref 0 s == b'/' then sql_mdy else postgres_mdy)
    else if c == b'd'
    then (if deref 0 s == b'/' then sql_dmy else if deref 0 s == b'.' then german else postgres_dmy)
    else iso
format_style _ = iso

pub date_format_to_style : Option Bytes → Bytes
date_format_to_style s = datestyle (format_style s)
