-- ===== src/Query/Rows.antt =====
-- The methods of pgquery.c that give rows: as tuples, as dictionaries and as single values. The
-- ones for tuples and for dictionaries differ in the reading of the current row only.
use py_gre_sql.Base.{
  ℕ, zero, suc, leb, ◌==◌, if◌then◌else◌, Bool, false, List, [], ◌∷◌, Bytes, ℤ, pos, negsuc,
}
use py_gre_sql.Settings.{Settings}
use py_gre_sql.Python.{Python}
use py_gre_sql.Libpq.{Libpq}
use py_gre_sql.Conn.{
  Return, gives, raises, undefined, unfinished, ◌>>=◌, stop_iteration, index_error,
  multiple_results, no_result_found, no_fields,
}
use py_gre_sql.Query.{
  Query, Fetched, itself, passed, not_fetched, fetch_undefined, get_async_result,
  query_value_in_column, query_row_as_tuple, query_row_as_dict,
}

-- how `query_iter` ends: with the query itself, or with another object
pub data Iterated (Obj : Type 0) : Type 0 where
  the_query : Iterated Obj
  other_object : Obj → Iterated Obj

module _ (py : Python) (g : Settings py.Obj) (pq : Libpq) where
  -- a method, whose object changes
  abbrev pub RowCall : Type 0 → Type 0
  RowCall A = Query py pq × Return A

  -- A method's body, where the query itself was returned; else the value is passed on.
  abbrev pub if_itself :
      {A : Type 0}
      → (py.Obj → A)
      → (Query py pq → RowCall A)
      → (Query py pq × Fetched py.Obj)
      → RowCall A
  if_itself pass body (self, itself) = body self
  if_itself pass body (self, passed o) = (self, gives (pass o))
  if_itself pass body (self, not_fetched e) = (self, raises e)
  if_itself pass body (self, fetch_undefined f) = (self, undefined f)

  abbrev pub on_result : Query py pq → Bool → (Query py pq → RowCall py.Obj) → RowCall py.Obj
  on_result self keep body = if_itself (λ o. o) body (get_async_result py g pq self keep)

  -- `if (row) ++self->current_row;`
  abbrev pub advance : Query py pq → Return py.Obj → RowCall py.Obj
  advance self (gives o) = (record self { current_row = suc self.current_row }, gives o)
  advance self other = (self, other)

  module _ (read : Query py pq → Return py.Obj) where
    -- the current row, and on to the next
    unfoldable pub next_row : Query py pq → RowCall py.Obj
    next_row self =
        if leb self.max_row self.current_row
        then (self, raises stop_iteration)
        else advance self (read self)

    -- the same, with None behind the last row
    unfoldable pub one_row : Query py pq → RowCall py.Obj
    one_row self =
        if leb self.max_row self.current_row
        then (self, gives py.none_obj)
        else advance self (read self)

    unfoldable pub single_row : Query py pq → RowCall py.Obj
    single_row self =
        if self.max_row == 1
        then (let first = record self { current_row = 0 } in advance first (read first))
        else if self.max_row == 0
        then (self, raises no_result_found)
        else (self, raises multiple_results)

    abbrev pub then_rows :
        RowCall py.Obj → (Query py pq → RowCall (List py.Obj)) → RowCall (List py.Obj)
    then_rows (self, gives o) rest = let r = rest self in (r.0, r.1 >>= λ rows. gives (o ∷ rows))
    then_rows (self, raises e) rest = (self, raises e)
    then_rows (self, undefined f) rest = (self, undefined f)
    then_rows (self, unfinished) rest = (self, unfinished)

    -- `n` rounds of the loop
    unfoldable pub rows_from : ℕ → Query py pq → RowCall (List py.Obj)
    rows_from zero self = (self, gives [])
    rows_from (suc n) self = then_rows (next_row self) (λ q. rows_from n q)

    abbrev pub as_list : RowCall (List py.Obj) → RowCall py.Obj
    as_list (self, rows) = (self, rows >>= λ os. gives (py.list_of os))

    unfoldable pub all_rows : Query py pq → RowCall py.Obj
    all_rows self = as_list (rows_from self.max_row (record self { current_row = 0 }))

  module _ (garbage : Bytes) where
    abbrev pub as_tuple : Query py pq → Return py.Obj
    as_tuple self = query_row_as_tuple py g pq garbage self

    abbrev pub as_dict : Query py pq → Return py.Obj
    as_dict self = query_row_as_dict py g pq garbage self

    abbrev pub as_scalar : Query py pq → Return py.Obj
    as_scalar self = query_value_in_column py g pq garbage self 0

    -- the row number is a C long
    abbrev pub item_at : ℤ → Query py pq → RowCall py.Obj
    item_at (negsuc k) self = (self, raises index_error)
    item_at (pos k) self =
        if leb self.max_row k
        then (self, raises index_error)
        else (let row = record self { current_row = k } in (row, as_tuple row))

    unfoldable pub query_getitem : Query py pq → ℤ → RowCall py.Obj
    query_getitem self i = on_result self false (item_at i)

    unfoldable pub query_iter : Query py pq → RowCall (Iterated py.Obj)
    query_iter self =
        if_itself other_object (λ q. (record q { current_row = 0 }, gives the_query))
          (get_async_result py g pq self false)

    unfoldable pub query_next : Query py pq → RowCall py.Obj
    query_next self = next_row as_tuple self

    unfoldable pub query_one : Query py pq → RowCall py.Obj
    query_one self = on_result self false (one_row as_tuple)

    unfoldable pub query_single : Query py pq → RowCall py.Obj
    query_single self = on_result self false (single_row as_tuple)

    unfoldable pub query_getresult : Query py pq → RowCall py.Obj
    query_getresult self = on_result self false (all_rows as_tuple)

    unfoldable pub query_next_dict : Query py pq → RowCall py.Obj
    query_next_dict self = next_row as_dict self

    unfoldable pub query_onedict : Query py pq → RowCall py.Obj
    query_onedict self = on_result self false (one_row as_dict)

    unfoldable pub query_singledict : Query py pq → RowCall py.Obj
    query_singledict self = on_result self false (single_row as_dict)

    unfoldable pub query_dictresult : Query py pq → RowCall py.Obj
    query_dictresult self = on_result self false (all_rows as_dict)

    -- a method for single values needs a field
    abbrev pub with_fields : (Query py pq → RowCall py.Obj) → Query py pq → RowCall py.Obj
    with_fields body self = if self.num_fields == 0 then (self, raises no_fields) else body self

    -- `n` rounds of the loop of `scalarresult`
    unfoldable pub scalars_from : ℕ → Query py pq → RowCall (List py.Obj)
    scalars_from zero self = (self, gives [])
    scalars_from (suc n) self =
        then_rows as_scalar (advance self (as_scalar self)) (λ q. scalars_from n q)

    abbrev pub all_scalars : Query py pq → RowCall py.Obj
    all_scalars self =
        as_list as_scalar (scalars_from self.max_row (record self { current_row = 0 }))

    unfoldable pub query_scalarresult : Query py pq → RowCall py.Obj
    query_scalarresult self = on_result self false (with_fields all_scalars)

    unfoldable pub query_onescalar : Query py pq → RowCall py.Obj
    query_onescalar self = on_result self false (with_fields (one_row as_scalar))

    unfoldable pub query_singlescalar : Query py pq → RowCall py.Obj
    query_singlescalar self = on_result self false (with_fields (single_row as_scalar))
