-- ===== src/Source/Invariant/Copy.antt =====
-- `putdata` and `getdata` keep the invariant.
use py_gre_sql.Base.{Bool, true, false, Option, none, some, [], ◌∷◌, if◌then◌else◌, ◌⊎◌, inl, inr}
use py_gre_sql.Settings.{Settings}
use py_gre_sql.Python.{Python}
use py_gre_sql.Libpq.{Libpq}
use py_gre_sql.Source.{Failure, Source, Reply, Argument}
use py_gre_sql.Source.Copy.{source_putdata, source_getdata}
use py_gre_sql.Source.Checks.{checked-All}
use py_gre_sql.Source.Invariant.{WellFormed, placed-cnx}
use py_gre_sql.Source.Execute.{with_cnx}
use py_gre_sql.Libpq.{CopyData, copied, copy_done, copy_failed}
use py_gre_sql.Source.Copy.{
  Sent, data_sent, end_sent, is_copy_in, is_copy_out, succeeded, send, what_is_sent, in_copy_state,
  put_sent, put_on, data_got, get_on,
}

module _ (py : Python) (g : Settings py.Obj) (pq : Libpq) where
  -- a test after which the connection has changed, or that leaves the source
  if-WellFormed :
      {A : Type 0} (b : Bool) (x y : Source pq × Reply A)
      → WellFormed x.0
      → WellFormed y.0
      → WellFormed (if b then x else y).0
  if-WellFormed true x y h k = h
  if-WellFormed false x y h k = k

  cnx-WellFormed :
      (self : Source pq) (c : pq.Conn) → WellFormed self → WellFormed (with_cnx py g pq self c)
  cnx-WellFormed self c h = placed-cnx self (record self.pgcnx { cnx = some c }) self.result h

  send-WellFormed :
      (self : Source pq) (c : pq.Conn) (d : Sent)
      → WellFormed self
      → WellFormed (send py g pq self c d).0
  send-WellFormed self c (data_sent []) h = cnx-WellFormed self c h
  send-WellFormed self c (data_sent (x ∷ s)) h =
      let p = pq.put_copy_data c (x ∷ s) in
      if-WellFormed (succeeded py g pq p.1) _ _ (cnx-WellFormed self p.0 h)
        (cnx-WellFormed self p.0 h)
  send-WellFormed self c (end_sent m) h =
      let p = pq.put_copy_end c m in
      if-WellFormed (succeeded py g pq p.1) _ _ tt (cnx-WellFormed self p.0 h)

  put_sent-WellFormed :
      (self : Source pq) (c : pq.Conn) (d : Failure ⊎ Sent)
      → WellFormed self
      → WellFormed (put_sent py g pq self c d).0
  put_sent-WellFormed self c (inl f) h = h
  put_sent-WellFormed self c (inr d) h =
      if-WellFormed (in_copy_state py g pq is_copy_in self) _ _ (send-WellFormed self c d h) h

  put_on-WellFormed :
      (self : Source pq) (b : Argument py.Obj) (o : Option pq.Conn)
      → WellFormed self
      → WellFormed (put_on py g pq self b o).0
  put_on-WellFormed self b none h = h
  put_on-WellFormed self b (some c) h =
      put_sent-WellFormed self c (what_is_sent py g pq (pq.client_encoding c) b) h

  pub putdata-WellFormed :
      (self : Source pq) (b : Argument py.Obj)
      → WellFormed self
      → WellFormed (source_putdata py g pq self b).0
  unfolding source_putdata
  putdata-WellFormed self b h =
      checked-All self _ _ WellFormed h (put_on-WellFormed self b self.pgcnx.cnx h)

  data_got-WellFormed :
      (self : Source pq) (decode : Bool) (p : pq.Conn × CopyData)
      → WellFormed self
      → WellFormed (data_got py g pq self decode p).0
  data_got-WellFormed self decode (c, copied s) h = cnx-WellFormed self c h
  data_got-WellFormed self decode (c, copy_done) h = tt
  data_got-WellFormed self decode (c, copy_failed) h = cnx-WellFormed self c h

  get_on-WellFormed :
      (self : Source pq) (d : Option Bool) (o : Option pq.Conn)
      → WellFormed self
      → WellFormed (get_on py g pq self d o).0
  get_on-WellFormed self d none h = h
  get_on-WellFormed self none (some c) h = h
  get_on-WellFormed self (some d) (some c) h =
      if-WellFormed (in_copy_state py g pq is_copy_out self) _ _
        (data_got-WellFormed self d (pq.get_copy_data c) h) h

  pub getdata-WellFormed :
      (self : Source pq) (d : Option Bool)
      → WellFormed self
      → WellFormed (source_getdata py g pq self d).0
  unfolding source_getdata
  getdata-WellFormed self d h =
      checked-All self _ _ WellFormed h (get_on-WellFormed self d self.pgcnx.cnx h)
