-- ===== src/Conn/Compose.antt =====
-- A query of a connection, asynchronous and not, and what `getresult` gives for it.
use py_gre_sql.Base.{true, false, List, Bytes, Option, none, some, ◌≡◌, refl, sym, ap, ◌∙◌}
use py_gre_sql.Settings.{Settings}
use py_gre_sql.Python.{Python}
use py_gre_sql.Libpq.{Libpq, tuples_ok}
use py_gre_sql.Source.{Argument, Connection}
use py_gre_sql.Conn.{ConnObject, Return, gives}
use py_gre_sql.Conn.Execute.{
  Item, query_object, query_args, call_libpq, query_done, new_query, sent_query, query_by_status,
  base_query, conn_query, conn_send_query,
}
use py_gre_sql.Query.{Query, synchronous, fetching, get_async_result}
use py_gre_sql.Query.Rows.{query_getresult, all_rows, as_tuple}
use py_gre_sql.Query.Alike.{seen, rows-alike}
use py_gre_sql.Query.Async.{take_table, alike}

module _ (py : Python) (g : Settings py.Obj) (pq : Libpq) (garbage : Bytes) where
  abbrev pub getresult : Query py pq → Return py.Obj
  getresult q = (query_getresult py g pq garbage q).1

  getresult-seen :
      (c d : Connection pq) (q : Query py pq)
      → getresult (seen py g pq c synchronous q) ≡ getresult (seen py g pq d synchronous q)
  unfolding query_getresult get_async_result all_rows
  getresult-seen c d q =
      let base = seen py g pq d synchronous q in
      let (l, (os, f, h)) =
        rows-alike py g pq (as_tuple py g pq garbage) (seen py g pq c synchronous q) base
          (alike py g pq garbage c synchronous base) q.max_row 0 in
      rw (f, h) refl

  -- For a query whose text and parameters can be encoded, where executing it gives a result with
  -- rows, and where sending it and then fetching a result gives the same result: query returns a
  -- query object, send_query returns another, and getresult gives the same for both, the same rows
  -- or the same error.
  pub query-send_query :
      (self : ConnObject py pq) (sql : Argument py.Obj)
      (args : Option (Option (List (Item py.Obj)))) (c d e f : pq.Conn) (query : Bytes)
      (params : List (Option Bytes)) (r : pq.Answer)
      → self.base.cnx ≡ some c
      → query_args py g pq (pq.client_encoding c) sql args ≡ gives (query, params)
      → call_libpq py g pq c query params false synchronous ≡ (d, true, some r)
      → call_libpq py g pq c query params false fetching ≡ (e, true, none)
      → pq.get_result e ≡ (f, some r)
      → pq.result_status r ≡ tuples_ok
      → (p : Query py pq) × ((q : Query py pq) × ((conn_query py g pq self sql args).1
            ≡ gives (query_object p))
          × ((conn_send_query py g pq self sql args).1 ≡ gives (query_object q))
          × (getresult p ≡ getresult q))
  unfolding conn_query conn_send_query base_query query_by_status
  query-send_query self sql args c d e f query params r h a k l t s =
      let p = new_query py g pq (query_done py g pq self d) (pq.client_encoding c) r in
      let q = sent_query py g pq (query_done py g pq self e) (pq.client_encoding c) in
      (
        p,
        (
          q,
          rw (h, a, k, s) refl,
          rw (h, a, l) refl,
          getresult-seen (query_done py g pq self d).base (query_done py g pq self e).base p
              ∙ sym (ap (λ x. x.1) (take_table py g pq garbage q e f r t s).1),
        ),
      )
