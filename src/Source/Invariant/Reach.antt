-- ===== src/Source/Invariant/Reach.antt =====
-- The sources that a program can have, and the invariant on them.
use py_gre_sql.Base.{ℤ, Bool, Option}
use py_gre_sql.Settings.{Settings}
use py_gre_sql.Python.{Python}
use py_gre_sql.Libpq.{Libpq}
use py_gre_sql.Source.{Connection, Source, Argument, source_close, source_setattr, conn_source}
use py_gre_sql.Source.Execute.{source_execute}
use py_gre_sql.Source.Fetch.{Direction, source_fetch, source_move}
use py_gre_sql.Source.Copy.{source_putdata, source_getdata}
use py_gre_sql.Source.Invariant.{
  WellFormed, placed-cnx, close-WellFormed, setattr-WellFormed, move-WellFormed, fetch-WellFormed,
}
use py_gre_sql.Source.Invariant.Execute.{execute-WellFormed}
use py_gre_sql.Source.Invariant.Copy.{putdata-WellFormed, getdata-WellFormed}

-- one call of a method that changes the source
pub data Call (pq : Libpq) (Obj : Type 0) : Type 0 where
  close_call : Call pq Obj
  setattr_call : Bool → Option ℤ → Call pq Obj
  execute_call : Argument Obj → Call pq Obj
  fetch_call : Option (Option ℤ) → Call pq Obj
  move_call : Direction → Call pq Obj
  putdata_call : Argument Obj → Call pq Obj
  getdata_call : Option Bool → Call pq Obj
  -- other objects share the connection and may change it at any time
  connection_change : Connection pq → Call pq Obj

module _ (py : Python) (g : Settings py.Obj) (pq : Libpq) where
  unfoldable pub after_call : Call pq py.Obj → Source pq → Source pq
  after_call close_call self = (source_close self).0
  after_call (setattr_call b v) self = (source_setattr self b v).0
  after_call (execute_call sql) self = (source_execute py g pq self sql).0
  after_call (fetch_call args) self = (source_fetch py g pq self args).0
  after_call (move_call d) self = (source_move d self).0
  after_call (putdata_call b) self = (source_putdata py g pq self b).0
  after_call (getdata_call d) self = (source_getdata py g pq self d).0
  after_call (connection_change c) self = record self { pgcnx = c }

  -- the sources that come out of `conn_source`, whatever the memory held, and calls
  pub data Reachable : Source pq → Type 0 where
    created : (c : Connection pq) (memory : Source pq) → Reachable (conn_source c memory)
    called :
        {self : Source pq} (m : Call pq py.Obj) → Reachable self → Reachable (after_call m self)

  call-WellFormed :
      (m : Call pq py.Obj) (self : Source pq) → WellFormed self → WellFormed (after_call m self)
  unfolding after_call
  call-WellFormed close_call self h = close-WellFormed py g pq self
  call-WellFormed (setattr_call b v) self h = setattr-WellFormed py g pq self b v h
  call-WellFormed (execute_call sql) self h = execute-WellFormed py g pq self sql h
  call-WellFormed (fetch_call args) self h = fetch-WellFormed py g pq self args h
  call-WellFormed (move_call d) self h = move-WellFormed py g pq self d h
  call-WellFormed (putdata_call b) self h = putdata-WellFormed py g pq self b h
  call-WellFormed (getdata_call d) self h = getdata-WellFormed py g pq self d h
  call-WellFormed (connection_change c) self h = placed-cnx self c self.result h

  -- Whatever methods are called on a source, in whatever order, and whatever happens to its
  -- connection in between: while it has a result, its current row is one of the rows, or the one
  -- behind the last, or -1 where there are none, and for a result with rows the numbers of rows and
  -- fields that it keeps are those of the result.
  pub Reachable-WellFormed : (self : Source pq) → Reachable self → WellFormed self
  unfolding conn_source
  Reachable-WellFormed _ (created c memory) = tt
  Reachable-WellFormed _ (called {self} m h) = call-WellFormed m self (Reachable-WellFormed self h)
