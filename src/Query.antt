-- ===== src/Query.antt =====
-- The query object of pgquery.c: its state, the fetching of results of asynchronous queries, and
-- the values of its current row. The methods are in the modules below.
pub mod Rows
pub mod Helpers
pub mod Fields
pub mod Cursor
pub mod Session
pub mod Alike
pub mod Async
pub mod Stale
mod Tests
use py_gre_sql.Base.{
  ℕ, zero, suc, ◌+◌, ℤ, pos, Bool, true, false, List, [], ◌∷◌, Bytes, Option, none, some, get_elem?,
  ◌==◌, if◌then◌else◌, ◌⊎◌, inl, inr,
}
use py_gre_sql.Settings.{Settings}
use py_gre_sql.Types.{pygres_text, pygres_bytea, pygres_other, pygres_array, get_col_types}
use py_gre_sql.Python.{Python}
use py_gre_sql.Convert.{cast_bytea_text, cast_sized_text, cast_other, cast_unsized_simple}
use py_gre_sql.Elements.{has_bits, cast_array_value}
use py_gre_sql.Outcome.{Fault, read_past_end, null_access}
use py_gre_sql.Libpq.{Libpq, Status, Cell, out_of_range, null_value, value, tuples_ok}
use py_gre_sql.Conn.{
  ConnObject, CallError, Return, gives, raises, undefined, unfinished, ◌>>=◌, of_outcome, of_option,
  not_connected, non_query_result,
}

-- `async`: 0 for a normal query, 1 for a query whose results are to be fetched, and 2 where the
-- current result is kept for this round-trip
pub data AsyncMode : Type 0 where
  synchronous fetching keeping : AsyncMode

-- `queryObject`. The connection object is shared: a method leaves its changes of it in `pgcnx`.
-- `linked` tells whether the pointer to it is still there.
pub record Query (py : Python) (pq : Libpq) : Type 0 where
  pub pgcnx : ConnObject py pq
  pub linked : Bool
  pub result : Option pq.Answer
  pub async : AsyncMode
  pub encoding : ℕ
  pub current_row : ℕ
  pub max_row : ℕ
  pub num_fields : ℕ
  pub col_types : List ℕ

-- what `_get_async_result` returns: the query as a sentinel, a value to be passed on, or NULL
pub data Fetched (Obj : Type 0) : Type 0 where
  itself : Fetched Obj
  passed : Obj → Fetched Obj
  not_fetched : CallError → Fetched Obj
  fetch_undefined : Fault → Fetched Obj

-- The answer of libpq for a null pointer is that of a null value.
abbrev pub answer_cell : (pq : Libpq) → Option pq.Answer → ℕ → ℕ → Cell
answer_cell pq none i j = out_of_range
answer_cell pq (some r) i j = pq.cell r (pos i) j

-- `PQftype`, for all columns from number `j` on
unfoldable pub column_oids : (pq : Libpq) → pq.Answer → ℕ → ℕ → List ℕ
column_oids pq r zero j = []
column_oids pq r (suc n) j = pq.ftype r j ∷ column_oids pq r n (suc j)

abbrev pub type_at : (pq : Libpq) → Option pq.Answer → ℕ → ℕ
type_at pq none j = 0
type_at pq (some r) j = pq.ftype r j

module _ (py : Python) (g : Settings py.Obj) (pq : Libpq) (garbage : Bytes) where
  -- one value by the code of its column; `garbage` is what the buffer of a money value held
  unfoldable pub cast_by : Query py pq → ℕ → ℕ → Bytes → Return py.Obj
  cast_by self column type s =
      if has_bits type pygres_array
      then of_outcome (cast_array_value py g garbage self.encoding type none 0 0 s)
      else if type == pygres_bytea
      then gives (cast_bytea_text py g s)
      else if type == pygres_other
      then (if self.linked
          then of_option
              (cast_other py g s self.encoding (type_at pq self.result column) self.pgcnx.cast_hook)
          else undefined null_access)
      else if has_bits type pygres_text
      then of_option (cast_sized_text py g s self.encoding type)
      else of_option (cast_unsized_simple py g s type)

  abbrev cast_typed : Query py pq → ℕ → Bytes → Option ℕ → Return py.Obj
  cast_typed self column s none = undefined read_past_end
  cast_typed self column s (some type) = cast_by self column type s

  abbrev value_of : Query py pq → ℕ → Cell → Return py.Obj
  value_of self column out_of_range = gives py.none_obj
  value_of self column null_value = gives py.none_obj
  value_of self column (value s) = cast_typed self column s (get_elem? self.col_types column)

  -- the value in the given column of the current row
  unfoldable pub query_value_in_column : Query py pq → ℕ → Return py.Obj
  query_value_in_column self column =
      value_of self column (answer_cell pq self.result self.current_row column)

  -- `n` columns from column `j` on
  unfoldable pub values_from : Query py pq → ℕ → ℕ → Return (List py.Obj)
  values_from self zero j = gives []
  values_from self (suc n) j = do
    val ← query_value_in_column self j
    rest ← values_from self n (suc j)
    gives (val ∷ rest)

  unfoldable pub query_row_as_tuple : Query py pq → Return py.Obj
  query_row_as_tuple self = values_from self self.num_fields 0 >>= λ vals. gives (py.tuple_of vals)

  -- `PyDict_SetItemString` with the name of the column
  abbrev name_of : Query py pq → ℕ → Option pq.Answer → Return Bytes
  name_of self j none = undefined null_access
  name_of self j (some r) = gives (pq.fname r j)

  unfoldable pub items_from : Query py pq → ℕ → ℕ → Return (List (Bytes × py.Obj))
  items_from self zero j = gives []
  items_from self (suc n) j = do
    val ← query_value_in_column self j
    name ← name_of self j self.result
    rest ← items_from self n (suc j)
    gives ((name, val) ∷ rest)

  unfoldable pub query_row_as_dict : Query py pq → Return py.Obj
  query_row_as_dict self = items_from self self.num_fields 0 >>= λ items. gives (py.dict_of items)

module _ (py : Python) (g : Settings py.Obj) (pq : Libpq) where
  abbrev pub keep_cnx : Query py pq → pq.Conn → Query py pq
  keep_cnx self c = record self {
    pgcnx = record self.pgcnx { base = record self.pgcnx.base { cnx = some c } };
  }

  -- the end of the results
  abbrev pub unlink : Query py pq → Query py pq
  unlink self = record self { result = none; linked = false }

  -- the second call of `PQgetResult` after an error, by which the link is gone
  abbrev pub drain_more :
      Query py pq → CallError → (pq.Conn × Option pq.Answer) → Query py pq × Fetched py.Obj
  drain_more self e (c, none) = (unlink (keep_cnx self c), not_fetched e)
  drain_more self e (c, some r) = (unlink (keep_cnx self c), fetch_undefined null_access)

  -- the loop that clears the state of the connection after an error
  abbrev pub drain :
      Query py pq → CallError → (pq.Conn × Option pq.Answer) → Query py pq × Fetched py.Obj
  drain self e (c, none) = (record (keep_cnx self c) { result = none }, not_fetched e)
  drain self e (c, some r) = drain_more self e (pq.get_result c)

  -- a value of a result that is no table; for None it is the empty text
  abbrev pub non_query :
      Query py pq → pq.Conn → (CallError ⊎ Option py.Obj) → Query py pq × Fetched py.Obj
  non_query self c (inl e) = drain self e (pq.get_result c)
  non_query self c (inr none) = (record self { result = none }, passed (py.str_of []))
  non_query self c (inr (some o)) = (record self { result = none }, passed o)

  -- a new result: the current row stays
  unfoldable pub take_answer :
      Query py pq → pq.Conn → pq.Answer → Status → Query py pq × Fetched py.Obj
  take_answer self c r tuples_ok = (
    record self {
      result = some r;
      max_row = pq.ntuples r;
      num_fields = pq.nfields r;
      col_types = get_col_types g (column_oids pq r (pq.nfields r) 0);
    },
    itself,
  )
  take_answer self c r status = non_query self c (non_query_result py g pq status r c)

  abbrev pub fetched : Query py pq → (pq.Conn × Option pq.Answer) → Query py pq × Fetched py.Obj
  fetched self (c, none) = (unlink (keep_cnx self c), passed py.none_obj)
  fetched self (c, some r) = take_answer (keep_cnx self c) c r (pq.result_status r)

  -- `PQgetResult` of a null pointer is a null pointer.
  abbrev pub fetch_on : Query py pq → Option pq.Conn → Query py pq × Fetched py.Obj
  fetch_on self none = (unlink self, passed py.none_obj)
  fetch_on self (some c) = fetched self (pq.get_result c)

  unfoldable pub fetch_next : Query py pq → Query py pq × Fetched py.Obj
  fetch_next self =
      if self.linked then fetch_on self self.pgcnx.base.cnx else (self, not_fetched not_connected)

  abbrev pub fetch_by : AsyncMode → Bool → Query py pq → Query py pq × Fetched py.Obj
  fetch_by synchronous keep self = (self, itself)
  fetch_by fetching true self = fetch_next (record self { async = keeping })
  fetch_by fetching false self = fetch_next self
  fetch_by keeping true self = (self, itself)
  fetch_by keeping false self = (record self { async = fetching }, itself)

  unfoldable pub get_async_result : Query py pq → Bool → Query py pq × Fetched py.Obj
  get_async_result self keep = fetch_by self.async keep self
