-- ===== src/Settings/Tests.antt =====
-- The theorems on the settings at concrete inputs.
use py_gre_sql.Base.{Bytes, ◌≡◌, refl, none, some, codes}
use py_gre_sql.DateStyle.{date_style_to_format}
use py_gre_sql.Python.Demo.{demo_settings}
use py_gre_sql.Settings.{Settings, set_datestyle, get_datestyle}
use py_gre_sql.Settings.Laws.{set_datestyle-get_datestyle}

abbrev unset : Settings Bytes
unset = demo_settings none

abbrev german : Settings Bytes
german = record unset { date_format = some (date_style_to_format (some (codes "German"))) }

set_german : set_datestyle unset (some (some (codes "German"))) ≡ some german
unfolding set_datestyle
set_german = refl

set_datestyle-get_datestyle_example :
    set_datestyle german (some (get_datestyle german)) ≡ some german
set_datestyle-get_datestyle_example =
    set_datestyle-get_datestyle unset german (some (codes "German")) set_german
