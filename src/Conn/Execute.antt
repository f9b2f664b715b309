-- ===== src/Conn/Execute.antt =====
-- `_conn_query` of pgconn.c, by which a connection executes all kinds of queries, and its callers.
use py_gre_sql.Base.{ℕ, Bool, true, false, List, [], ◌∷◌, Bytes, Option, none, some, ◌⊎◌, inl, inr}
use py_gre_sql.Settings.{Settings}
use py_gre_sql.Types.{get_col_types}
use py_gre_sql.Python.{Python}
use py_gre_sql.Convert.{get_encoded_string}
use py_gre_sql.Libpq.{Libpq, Status, tuples_ok}
use py_gre_sql.Source.{Argument, byte_string, unicode}
use py_gre_sql.Conn.{
  ConnObject, CallError, Return, gives, raises, undefined, unfinished, ◌>>=◌, not_connected,
  string_expected, sequence_expected, not_encoded, no_string_form, message_raised, non_query_result,
}
use py_gre_sql.Query.{Query, AsyncMode, synchronous, fetching, column_oids}

-- a parameter of a query; an object of another type is given by its `str`
pub data Param (Obj : Type 0) : Type 0 where
  null_param : Param Obj
  bytes_param : Bytes → Param Obj
  text_param : Obj → Param Obj
  other_param : Obj → Param Obj

-- an item of the sequence of parameters: a parameter, or a list or tuple of them
pub data Item (Obj : Type 0) : Type 0 where
  param : Param Obj → Item Obj
  sequence : Obj → List (Param Obj) → Item Obj

abbrev pub item_param : {Obj : Type 0} → Item Obj → Param Obj
item_param (param p) = p
item_param (sequence o ps) = other_param o

abbrev item_params : {Obj : Type 0} → List (Item Obj) → List (Param Obj)
item_params [] = []
item_params (x ∷ xs) = item_param x ∷ item_params xs

-- A single list or tuple holds the positional parameters.
unfoldable pub positional : {Obj : Type 0} → List (Item Obj) → List (Param Obj)
positional (sequence o ps ∷ []) = ps
positional xs = item_params xs

-- what `_conn_query` returns: a query object, None, or another object
pub data Queried (py : Python) (pq : Libpq) : Type 0 where
  query_object : Query py pq → Queried py pq
  value_object : Option py.Obj → Queried py pq

module _ (py : Python) (g : Settings py.Obj) (pq : Libpq) where
  abbrev sql_encoded : Option Bytes → Return Bytes
  sql_encoded none = raises not_encoded
  sql_encoded (some s) = gives s

  unfoldable pub sql_text : ℕ → Argument py.Obj → Return Bytes
  sql_text encoding (byte_string s) = gives s
  sql_text encoding (unicode o) = sql_encoded (get_encoded_string py g o encoding)
  sql_text encoding _ = raises string_expected

  abbrev string_form : Option Bytes → Return (Option Bytes)
  string_form none = raises no_string_form
  string_form (some s) = gives (some s)

  -- a parameter for libpq, where None is a null pointer
  unfoldable pub param_text : ℕ → Param py.Obj → Return (Option Bytes)
  param_text encoding null_param = gives none
  param_text encoding (bytes_param s) = gives (some s)
  param_text encoding (text_param o) =
      sql_encoded (get_encoded_string py g o encoding) >>= λ s. gives (some s)
  param_text encoding (other_param o) = string_form (py.str_form o)

  unfoldable pub param_texts : ℕ → List (Param py.Obj) → Return (List (Option Bytes))
  param_texts encoding [] = gives []
  param_texts encoding (p ∷ ps) = do
    s ← param_text encoding p
    rest ← param_texts encoding ps
    gives (s ∷ rest)

  -- no second argument, one that is no sequence, or a sequence
  unfoldable pub query_params : Option (Option (List (Item py.Obj))) → Return (List (Param py.Obj))
  query_params none = gives []
  query_params (some none) = raises sequence_expected
  query_params (some (some xs)) = gives (positional xs)

  abbrev with_status : pq.Conn × Option pq.Answer → pq.Conn × Bool × Option pq.Answer
  with_status (c, none) = (c, false, none)
  with_status (c, some r) = (c, true, some r)

  abbrev as_sent : pq.Conn × Bool → pq.Conn × Bool × Option pq.Answer
  as_sent (c, status) = (c, status, none)

  -- the call of libpq: its status, and the result of a query that is not asynchronous
  unfoldable pub call_libpq :
      pq.Conn → Bytes → List (Option Bytes) → Bool → AsyncMode → pq.Conn × Bool × Option pq.Answer
  call_libpq c query [] prepared fetching = as_sent (pq.send_query c query)
  call_libpq c query [] true _ = with_status (pq.exec_prepared c query [])
  call_libpq c query [] false _ = with_status (pq.exec c query)
  call_libpq c query (p ∷ ps) prepared fetching = as_sent (pq.send_query_params c query (p ∷ ps))
  call_libpq c query (p ∷ ps) true _ = with_status (pq.exec_prepared c query (p ∷ ps))
  call_libpq c query (p ∷ ps) false _ = with_status (pq.exec_params c query (p ∷ ps))

  -- the connection after the call; the date format is to be fetched newly
  abbrev pub query_done : ConnObject py pq → pq.Conn → ConnObject py pq
  query_done self c = record self {
    base = record self.base { cnx = some c; date_format = g.date_format };
  }

  -- the query object for a result
  abbrev pub new_query : ConnObject py pq → ℕ → pq.Answer → Query py pq
  new_query self encoding r = record {
    pgcnx = self;
    linked = true;
    result = some r;
    async = synchronous;
    encoding = encoding;
    current_row = 0;
    max_row = pq.ntuples r;
    num_fields = pq.nfields r;
    col_types = get_col_types g (column_oids pq r (pq.nfields r) 0);
  }

  -- the query object for a query that has been sent
  abbrev pub sent_query : ConnObject py pq → ℕ → Query py pq
  sent_query self encoding = record {
    pgcnx = self;
    linked = true;
    result = none;
    async = fetching;
    encoding = encoding;
    current_row = 0;
    max_row = 0;
    num_fields = 0;
    col_types = [];
  }

  abbrev value_returned : CallError ⊎ Option py.Obj → Return (Queried py pq)
  value_returned (inl e) = raises e
  value_returned (inr o) = gives (value_object o)

  unfoldable pub query_by_status :
      ConnObject py pq → ℕ → pq.Conn → pq.Answer → Status → Return (Queried py pq)
  query_by_status self encoding c r tuples_ok = gives (query_object (new_query self encoding r))
  query_by_status self encoding c r status = value_returned (non_query_result py g pq status r c)

  abbrev queried :
      ConnObject py pq
      → ℕ
      → pq.Conn × Bool × Option pq.Answer
      → ConnObject py pq × Return (Queried py pq)
  queried self encoding (c, false, r) = (
    record self { base = record self.base { cnx = some c } },
    raises (message_raised (pq.error_message c)),
  )
  queried self encoding (c, true, none) =
      let s = query_done self c in (s, gives (query_object (sent_query s encoding)))
  queried self encoding (c, true, some r) =
      let s = query_done self c in (s, query_by_status s encoding c r (pq.result_status r))

  abbrev executed :
      ConnObject py pq
      → pq.Conn
      → Bool
      → AsyncMode
      → Return (Bytes × List (Option Bytes))
      → ConnObject py pq × Return (Queried py pq)
  executed self c prepared async (gives (query, params)) =
      queried self (pq.client_encoding c) (call_libpq c query params prepared async)
  executed self c prepared async (raises e) = (self, raises e)
  executed self c prepared async (undefined f) = (self, undefined f)
  executed self c prepared async unfinished = (self, unfinished)

  -- the texts of the query and of its parameters
  unfoldable pub query_args :
      ℕ
      → Argument py.Obj
      → Option (Option (List (Item py.Obj)))
      → Return (Bytes × List (Option Bytes))
  query_args encoding sql args = do
    query ← sql_text encoding sql
    params ← query_params args
    texts ← param_texts encoding params
    gives (query, texts)

  abbrev pub query_on :
      ConnObject py pq
      → Argument py.Obj
      → Option (Option (List (Item py.Obj)))
      → Bool
      → AsyncMode
      → Option pq.Conn
      → ConnObject py pq × Return (Queried py pq)
  query_on self sql args prepared async none = (self, raises not_connected)
  query_on self sql args prepared async (some c) =
      executed self c prepared async (query_args (pq.client_encoding c) sql args)

  -- `_conn_query`
  unfoldable pub base_query :
      ConnObject py pq
      → Argument py.Obj
      → Option (Option (List (Item py.Obj)))
      → Bool
      → AsyncMode
      → ConnObject py pq × Return (Queried py pq)
  base_query self sql args prepared async = query_on self sql args prepared async self.base.cnx

  unfoldable pub conn_query :
      ConnObject py pq
      → Argument py.Obj
      → Option (Option (List (Item py.Obj)))
      → ConnObject py pq × Return (Queried py pq)
  conn_query self sql args = base_query self sql args false synchronous

  unfoldable pub conn_send_query :
      ConnObject py pq
      → Argument py.Obj
      → Option (Option (List (Item py.Obj)))
      → ConnObject py pq × Return (Queried py pq)
  conn_send_query self sql args = base_query self sql args false fetching

  unfoldable pub conn_query_prepared :
      ConnObject py pq
      → Argument py.Obj
      → Option (Option (List (Item py.Obj)))
      → ConnObject py pq × Return (Queried py pq)
  conn_query_prepared self sql args = base_query self sql args true synchronous
