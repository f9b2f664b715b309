-- ===== src/Source/Text.antt =====
-- `source_str` of pgsource.c.
use py_gre_sql.Base.{Bytes, Option, none, some, codes}
use py_gre_sql.Outcome.{Outcome, ok, fault, null_access}
use py_gre_sql.Libpq.{Libpq}
use py_gre_sql.Format.{format_result}
use py_gre_sql.Source.{Source, ResultType, result_empty, result_dml, result_ddl, result_dql}

module _ (pq : Libpq) where
  -- `PQcmdStatus`
  abbrev status_text : Option pq.Answer → Outcome Bytes
  status_text none = fault null_access
  status_text (some r) = ok (pq.cmd_status r)

  abbrev text_by : ResultType → Option pq.Answer → Outcome Bytes
  text_by result_dql r = format_result pq r
  text_by result_ddl r = status_text r
  text_by result_dml r = status_text r
  text_by result_empty r = ok (codes "(empty PostgreSQL source object)")

  unfoldable pub source_str : Source pq → Outcome Bytes
  source_str self = text_by self.result_type self.result
