-- ===== src/Types/Tests.antt =====
-- The theorems on type codes at concrete inputs.
use py_gre_sql.Base.{Bytes, none}
use py_gre_sql.Python.Demo.{demo_settings}
use py_gre_sql.Settings.{Settings}
use py_gre_sql.Types.Laws.{
  All, array_types, other_array_types, CastsElements, IsOther, get_type_arrays,
}

abbrev unset : Settings Bytes
unset = demo_settings none

get_type_arrays_example :
    All (CastsElements unset) array_types × All (IsOther unset) other_array_types
get_type_arrays_example = get_type_arrays unset
