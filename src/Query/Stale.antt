-- ===== src/Query/Stale.antt =====
-- What an asynchronous query does with the state of an earlier result.
use py_gre_sql.Base.{
  ℕ, zero, suc, ◌≤◌, false, arith, Bytes, none, some, ◌≡◌, refl, sym, replicate, get_elem?,
  length-replicate,
}
use py_gre_sql.Python.{Python}
use py_gre_sql.Settings.{Settings}
use py_gre_sql.Libpq.{Libpq, tuples_ok}
use py_gre_sql.Conn.{Return, gives}
use py_gre_sql.Query.{
  Query, fetching, get_async_result, fetch_next, take_answer, query_row_as_tuple, values_from,
  query_value_in_column,
}
use py_gre_sql.Query.Rows.{as_tuple, query_getresult, query_one, one_row}
use py_gre_sql.Query.Helpers.{Helpers, query_dictiter}
use py_gre_sql.Query.Cursor.{at_row, Shows, all_rows_lem, leb-true, leb-false}
use py_gre_sql.Query.Async.{pending, plain}
use py_gre_sql.Query.Alike.{tuple-seen}

module _ (py : Python) (g : Settings py.Obj) (pq : Libpq) (garbage : Bytes) where
  -- a row of as many None values as the last result had fields
  abbrev pub empty_row : ℕ → py.Obj
  empty_row n = py.tuple_of (replicate n py.none_obj)

  values_lem :
      (self : Query py pq) (n j : ℕ)
      → values_from py g pq garbage (record self { result = none }) n j
        ≡ gives (replicate n py.none_obj)
  unfolding values_from query_value_in_column
  values_lem self zero j = refl
  values_lem self (suc n) j = rw (values_lem self n (suc j)) refl

  some-same : (x y : py.Obj) → some x ≡ some y → x ≡ y
  some-same x y h = cc

  replicate_lem : (n k : ℕ) (x o : py.Obj) → get_elem? (replicate n x) k ≡ some o → o ≡ x
  replicate_lem zero k x o h = cc
  replicate_lem (suc n) zero x o h = sym (some-same x o h)
  replicate_lem (suc n) (suc k) x o h = replicate_lem n k x o h

  Shows-over :
      (self : Query py pq)
      → Shows py g pq
          (as_tuple py g pq garbage)
          (record self { result = none })
          (replicate self.max_row (empty_row self.num_fields))
  unfolding query_row_as_tuple
  Shows-over self = (
    sym (length-replicate self.max_row (empty_row self.num_fields)),
    λ k o h.
        rw
          (
            values_lem (at_row py g pq self k) self.num_fields 0,
            replicate_lem self.max_row k (empty_row self.num_fields) o h,
          )
          refl,
  )

  -- For an asynchronous query whose results have ended, with a helper function for dictiter:
  -- dictiter returns None, and getresult then does not raise an error but returns as many rows as
  -- the last result had, each of as many None values as it had fields.
  pub dictiter-getresult_stale :
      (h : Helpers py pq) (f : Query py pq → Query py pq × Return py.Obj) (self : Query py pq)
      (c d : pq.Conn)
      → h.dictiter ≡ some f
      → pq.get_result c ≡ (d, none)
      → ((query_dictiter py g pq garbage h (pending py g pq self c)).1 ≡ gives py.none_obj)
        × ((query_getresult py g pq garbage
              (query_dictiter py g pq garbage h (pending py g pq self c)).0).1
            ≡ gives (py.list_of (replicate self.max_row (empty_row self.num_fields))))
  unfolding query_dictiter query_getresult get_async_result fetch_next
  dictiter-getresult_stale h f self c d e k =
      let last = record (pending py g pq self d) { linked = false } in
      (
        rw (e, k) refl,
        rw
            (
              e,
              k,
              all_rows_lem py g pq (as_tuple py g pq garbage) (record last { result = none })
                  (replicate self.max_row (empty_row self.num_fields)) (Shows-over last)
                  self.current_row,
            )
            refl,
      )

  abbrev one : Query py pq → Query py pq × Return py.Obj
  one self = query_one py g pq garbage self

  one_table :
      (self : Query py pq) (c d : pq.Conn) (r : pq.Answer)
      → pq.get_result c ≡ (d, some r)
      → pq.result_status r ≡ tuples_ok
      → one (pending py g pq self c)
        ≡ one_row py g pq
            (as_tuple py g pq garbage)
            (pending py g pq (record (plain py g pq self r) { current_row = self.current_row }) d)
  unfolding query_one get_async_result fetch_next take_answer
  one_table self c d r h s = rw (h, s) refl

  one_first :
      (self : Query py pq) (c d : pq.Conn) (r : pq.Answer) (o : py.Obj)
      → pq.get_result c ≡ (d, some r)
      → pq.result_status r ≡ tuples_ok
      → 1 ≤ pq.ntuples r
      → as_tuple py g pq garbage (plain py g pq self r) ≡ gives o
      → one (pending py g pq (record self { current_row = 0 }) c)
        ≡ (pending py g pq (record (plain py g pq self r) { current_row = 1 }) d, gives o)
  unfolding one_row
  one_first self c d r o h s n v =
      rw
        (
          one_table (record self { current_row = 0 }) c d r h s,
          leb-false (pq.ntuples r) 0 n,
          tuple-seen py g pq garbage (record self.pgcnx.base { cnx = some d }) fetching
              (plain py g pq self r),
          v,
        )
        refl

  -- For an asynchronous query with two results, of which the first has a row that can be read and
  -- the second one row: when one is called for the first time it returns the row of the first
  -- result, and the second time it returns None.
  pub one-one_skips :
      (self : Query py pq) (c d e : pq.Conn) (r₁ r₂ : pq.Answer) (o : py.Obj)
      → pq.get_result c ≡ (d, some r₁)
      → pq.result_status r₁ ≡ tuples_ok
      → pq.get_result d ≡ (e, some r₂)
      → pq.result_status r₂ ≡ tuples_ok
      → 1 ≤ pq.ntuples r₁
      → pq.ntuples r₂ ≡ 1
      → as_tuple py g pq garbage (plain py g pq self r₁) ≡ gives o
      → ((one (pending py g pq (record self { current_row = 0 }) c)).1 ≡ gives o)
        × ((one (one (pending py g pq (record self { current_row = 0 }) c)).0).1
            ≡ gives py.none_obj)
  unfolding one_row
  one-one_skips self c d e r₁ r₂ o h s k t n m v =
      let first = one_first self c d r₁ o h s n v in
      (
        rw first refl,
        rw
            (
              first,
              one_table (record (plain py g pq self r₁) { current_row = 1 }) d e r₂ k t,
              leb-true (pq.ntuples r₂) 1 (omega (arith, m)),
            )
            refl,
      )
