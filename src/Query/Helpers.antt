-- ===== src/Query/Helpers.antt =====
-- The methods of pgquery.c that call the helper functions of the Python module, which
-- `set_query_helpers` of pgmodule.c sets: for named tuples, and for iterators.
use py_gre_sql.Base.{
  leb, ◌==◌, if◌then◌else◌, Bool, true, false, List, [], ◌∷◌, Bytes, Option, none, some,
}
use py_gre_sql.Settings.{Settings}
use py_gre_sql.Python.{Python}
use py_gre_sql.Libpq.{Libpq}
use py_gre_sql.Conn.{
  Return, gives, raises, undefined, unfinished, multiple_results, no_result_found,
  bad_internal_call,
}
use py_gre_sql.Query.{Query, get_async_result}
use py_gre_sql.Query.Rows.{
  Iterated, other_object, on_result, if_itself, query_dictresult, query_one, query_single,
  query_getresult, query_iter, query_scalarresult, with_fields,
}

-- The helpers: functions in Python, which are called with the query and may call its methods.
-- `is_list` is `PyList_Check`, and `sequence_list` is `PySequence_List` of an iterator over the query.
pub record Helpers (py : Python) (pq : Libpq) : Type 0 where
  pub dictiter : Option (Query py pq → Query py pq × Return py.Obj)
  pub namediter : Option (Query py pq → Query py pq × Return py.Obj)
  pub namednext : Option (Query py pq → Query py pq × Return py.Obj)
  pub scalariter : Option (Query py pq → Query py pq × Return py.Obj)
  pub is_list : py.Obj → Bool
  pub sequence_list : py.Obj → Query py pq → Query py pq × Return py.Obj

-- `pg_set_query_helpers` of pgmodule.c: an argument is a Python function or, as `none`, another object.
-- The parsing of the arguments stores each function before it looks at the next argument, so that
-- those in front of a bad one are kept; `false` is its TypeError.
module _ (py : Python) (pq : Libpq) where
  abbrev Function : Type 0
  Function = Query py pq → Query py pq × Return py.Obj

  abbrev parse_helpers :
      Helpers py pq
      → Option Function
      → Option Function
      → Option Function
      → Option Function
      → Helpers py pq × Bool
  parse_helpers h none b c d = (h, false)
  parse_helpers h (some f) none c d = (record h { dictiter = some f }, false)
  parse_helpers h (some f) (some k) none d =
      (record h { dictiter = some f; namediter = some k }, false)
  parse_helpers h (some f) (some k) (some l) none =
      (record h { dictiter = some f; namediter = some k; namednext = some l }, false)
  parse_helpers h (some f) (some k) (some l) (some m) = (
    record h { dictiter = some f; namediter = some k; namednext = some l; scalariter = some m },
    true,
  )

  unfoldable pub set_query_helpers : Helpers py pq → List (Option Function) → Helpers py pq × Bool
  set_query_helpers h (a ∷ b ∷ c ∷ d ∷ []) = parse_helpers h a b c d
  set_query_helpers h _ = (h, false)

module _ (py : Python) (g : Settings py.Obj) (pq : Libpq) (garbage : Bytes)
    (h : Helpers py pq) where
  abbrev HelperCall : Type 0
  HelperCall = Query py pq → Query py pq × Return py.Obj

  abbrev with_kept : Query py pq → HelperCall → Query py pq × Return py.Obj
  with_kept self body = on_result py g pq self true body

  abbrev dictiter_by : Option HelperCall → HelperCall
  dictiter_by none self = query_dictresult py g pq garbage self
  dictiter_by (some f) self = with_kept self f

  unfoldable pub query_dictiter : HelperCall
  query_dictiter self = dictiter_by h.dictiter self

  abbrev onenamed_on : HelperCall → HelperCall
  onenamed_on f self =
      if leb self.max_row self.current_row then (self, gives py.none_obj) else f self

  abbrev onenamed_by : Option HelperCall → HelperCall
  onenamed_by none self = query_one py g pq garbage self
  onenamed_by (some f) self = with_kept self (onenamed_on f)

  unfoldable pub query_onenamed : HelperCall
  query_onenamed self = onenamed_by h.namednext self

  abbrev singlenamed_on : HelperCall → HelperCall
  singlenamed_on f self =
      if self.max_row == 1
      then f (record self { current_row = 0 })
      else if self.max_row == 0
      then (self, raises no_result_found)
      else (self, raises multiple_results)

  abbrev singlenamed_by : Option HelperCall → HelperCall
  singlenamed_by none self = query_single py g pq garbage self
  singlenamed_by (some f) self = with_kept self (singlenamed_on f)

  unfoldable pub query_singlenamed : HelperCall
  query_singlenamed self = singlenamed_by h.namednext self

  -- a list, or the list of what an iterator gives
  abbrev listed : Query py pq × Return py.Obj → Query py pq × Return py.Obj
  listed (self, gives o) = if h.is_list o then (self, gives o) else h.sequence_list o self
  listed (self, raises e) = (self, raises e)
  listed (self, undefined f) = (self, undefined f)
  listed (self, unfinished) = (self, unfinished)

  abbrev namedresult_by : Option HelperCall → HelperCall
  namedresult_by none self = query_getresult py g pq garbage self
  namedresult_by (some f) self = with_kept self (λ q. listed (f q))

  unfoldable pub query_namedresult : HelperCall
  query_namedresult self = namedresult_by h.namediter self

  -- An iterator. For a list, the iterator function of lists is called with the query, which is no
  -- list.
  abbrev iterated : Query py pq × Return py.Obj → Query py pq × Return (Iterated py.Obj)
  iterated (self, gives o) =
      if h.is_list o then (self, raises bad_internal_call) else (self, gives (other_object o))
  iterated (self, raises e) = (self, raises e)
  iterated (self, undefined f) = (self, undefined f)
  iterated (self, unfinished) = (self, unfinished)

  abbrev namediter_by : Option HelperCall → Query py pq → Query py pq × Return (Iterated py.Obj)
  namediter_by none self = query_iter py g pq garbage self
  namediter_by (some f) self =
      if_itself py g pq other_object (λ q. iterated (f q)) (get_async_result py g pq self true)

  unfoldable pub query_namediter : Query py pq → Query py pq × Return (Iterated py.Obj)
  query_namediter self = namediter_by h.namediter self

  abbrev scalariter_by : Option HelperCall → HelperCall
  scalariter_by none self = query_scalarresult py g pq garbage self
  scalariter_by (some f) self = with_kept self (with_fields py g pq garbage f)

  unfoldable pub query_scalariter : HelperCall
  query_scalariter self = scalariter_by h.scalariter self
