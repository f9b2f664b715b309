-- ===== src/Source/Attributes.antt =====
-- The attributes of a source (`source_getattr` of pgsource.c).
use py_gre_sql.Base.{ℕ, pos, Bytes, if◌then◌else◌}
use py_gre_sql.Python.{Python}
use py_gre_sql.Libpq.{Libpq}
use py_gre_sql.Types.{is_set}
use py_gre_sql.Names.{is_name, Attribute, object, parent_connection, none_while_pending, generic}
use py_gre_sql.Source.{
  ResultType, result_empty, result_dml, result_ddl, result_dql, Source, check_source_obj,
}

-- RESULT_EMPTY and the others
abbrev pub result_number : ResultType → ℕ
result_number result_empty = 1
result_number result_dml = 2
result_number result_ddl = 3
result_number result_dql = 4

module _ (py : Python) (pq : Libpq) where
  abbrev number_attribute : Source pq → Bytes → Attribute py.Obj
  number_attribute self name =
      if is_name "arraysize" name
      then object (py.int_of self.arraysize)
      else if is_name "resulttype" name
      then object (py.int_of (pos (result_number self.result_type)))
      else if is_name "ntuples" name
      then object (py.int_of (pos self.max_row))
      else if is_name "nfields" name
      then object (py.int_of (pos self.num_fields))
      else generic

  unfoldable pub source_getattr : Source pq → Bytes → Attribute py.Obj
  source_getattr self name =
      if is_name "pgcnx" name
      then (if is_set (check_source_obj self 0) then none_while_pending else parent_connection)
      else number_attribute self name
