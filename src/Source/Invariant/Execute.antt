-- ===== src/Source/Invariant/Execute.antt =====
-- `execute` keeps the invariant.
use py_gre_sql.Base.{ℕ, pos, Option, none, some, [], ◌∷◌, Bytes, ◌≢◌, refl, arith, ◌⊎◌, inl, inr}
use py_gre_sql.Settings.{Settings}
use py_gre_sql.Python.{Python}
use py_gre_sql.Libpq.{
  Libpq, Status, tuples_ok, command_ok, copy_out, copy_in, empty_query, bad_response, fatal_error,
  nonfatal_error, other_status,
}
use py_gre_sql.Source.{Failure, Source, Argument, result_dql, result_dml, result_ddl}
use py_gre_sql.Source.Execute.{
  source_execute, by_status, command_done, execute_on, run_query, reset, query_text, take_result,
}
use py_gre_sql.Source.Checks.{checked-All}
use py_gre_sql.Source.Invariant.{WellFormed}

dml-ne-dql : result_dml ≢ result_dql
dml-ne-dql e = cc

ddl-ne-dql : result_ddl ≢ result_dql
ddl-ne-dql e = cc

module _ (py : Python) (g : Settings py.Obj) (pq : Libpq) where
  -- the state of `execute` when it looks at the status of its result
  abbrev with_result : Source pq → pq.Answer → Source pq
  with_result self r = record self { result = some r; max_row = 0; current_row = pos 0 }

  command_done-WellFormed :
      (self : Source pq) (r : pq.Answer) (s : Bytes)
      → WellFormed (command_done py g pq (with_result self r) s)
  command_done-WellFormed self r [] = (omega arith, λ e. elim (ddl-ne-dql e) [ ])
  command_done-WellFormed self r (x ∷ s) = (omega arith, λ e. elim (dml-ne-dql e) [ ])

  by_status-WellFormed :
      (self : Source pq) (c : pq.Conn) (r : pq.Answer) (s : Status)
      → WellFormed (by_status py g pq (with_result self r) c r s).0
  unfolding by_status
  by_status-WellFormed self c r tuples_ok = (omega arith, λ e. (refl, refl))
  by_status-WellFormed self c r command_ok = command_done-WellFormed self r (pq.cmd_tuples r)
  by_status-WellFormed self c r copy_out = command_done-WellFormed self r (pq.cmd_tuples r)
  by_status-WellFormed self c r copy_in = command_done-WellFormed self r (pq.cmd_tuples r)
  by_status-WellFormed self c r empty_query = tt
  by_status-WellFormed self c r bad_response = tt
  by_status-WellFormed self c r fatal_error = tt
  by_status-WellFormed self c r nonfatal_error = tt
  by_status-WellFormed self c r other_status = tt

  take_result-WellFormed :
      (encoding : ℕ) (self : Source pq) (p : pq.Conn × Option pq.Answer)
      → WellFormed (take_result py g pq (reset py g pq encoding self) p).0
  take_result-WellFormed encoding self (c, none) = tt
  take_result-WellFormed encoding self (c, some r) =
      by_status-WellFormed
        (record (reset py g pq encoding self) {
          pgcnx = record self.pgcnx { cnx = some c; date_format = g.date_format };
        })
        c r (pq.result_status r)

  run_query-WellFormed :
      (self : Source pq) (c : pq.Conn) (q : Failure ⊎ Bytes)
      → WellFormed self
      → WellFormed (run_query py g pq self c q).0
  run_query-WellFormed self c (inl f) h = h
  run_query-WellFormed self c (inr query) h =
      take_result-WellFormed (pq.client_encoding c) self (pq.exec c query)

  execute_on-WellFormed :
      (self : Source pq) (sql : Argument py.Obj) (o : Option pq.Conn)
      → WellFormed self
      → WellFormed (execute_on py g pq self sql o).0
  execute_on-WellFormed self sql none h = h
  execute_on-WellFormed self sql (some c) h =
      run_query-WellFormed self c (query_text py g pq (pq.client_encoding c) sql) h

  pub execute-WellFormed :
      (self : Source pq) (sql : Argument py.Obj)
      → WellFormed self
      → WellFormed (source_execute py g pq self sql).0
  unfolding source_execute
  execute-WellFormed self sql h =
      checked-All self _ _ WellFormed h (execute_on-WellFormed self sql self.pgcnx.cnx h)
