-- ===== src/Settings/Laws.antt =====
-- The setting of the date style against its getter.
use py_gre_sql.Base.{Bytes, Option, none, some, ◌≡◌, arith}
use py_gre_sql.DateStyle.Laws.{style_format_round_trip}
use py_gre_sql.Settings.{Settings, set_datestyle, get_datestyle}

-- Setting the date style that `get_datestyle` returns changes no setting, if the stored format
-- was set by `set_datestyle` in the first place.
pub set_datestyle-get_datestyle :
    {Obj : Type 0} (g h : Settings Obj) (s : Option Bytes)
    → set_datestyle g (some s) ≡ some h
    → set_datestyle h (some (get_datestyle h)) ≡ some h
unfolding set_datestyle get_datestyle
set_datestyle-get_datestyle g h none e = ground arith
set_datestyle-get_datestyle g h (some s) e = ground (arith, style_format_round_trip (some s))
