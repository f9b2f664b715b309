-- ===== src/Query/Async.antt =====
-- The results of an asynchronous query: what repeated calls of `getresult` give.
use py_gre_sql.Base.{
  ℕ, zero, suc, true, false, List, [], ◌∷◌, ◌++◌, map, Bytes, Option, none, some, ◌≡◌, refl, ap,
  ◌⊎◌, inl, inr, length, Bool, if◌then◌else◌,
}
use py_gre_sql.Python.{Python}
use py_gre_sql.Settings.{Settings}
use py_gre_sql.Types.{get_col_types}
use py_gre_sql.Libpq.{
  Libpq, Status, tuples_ok, command_ok, copy_out, copy_in, empty_query, bad_response, fatal_error,
  nonfatal_error, other_status,
}
use py_gre_sql.Source.{Connection}
use py_gre_sql.Conn.{CallError, Return, gives, raises, not_connected, non_query_result}
use py_gre_sql.Query.{
  Query, AsyncMode, synchronous, fetching, get_async_result, fetch_next, take_answer, column_oids,
  non_query,
}
use py_gre_sql.Query.Rows.{all_rows, as_tuple, query_getresult}
use py_gre_sql.Query.Cursor.{at_row}
use py_gre_sql.Query.Alike.{seen, tuple-seen, Alike, rows-alike}

abbrev pub is_table : Status → Bool
is_table tuples_ok = true
is_table _ = false

is_table_lem : (s : Status) → s ≡ tuples_ok → is_table s ≡ true
is_table_lem s e = ap is_table e

module _ (py : Python) (g : Settings py.Obj) (pq : Libpq) where
  -- What the server has left to deliver on the connection: results, each with the connection that
  -- follows it. An error is the last result.
  pub data Stream : pq.Conn → List (pq.Conn × pq.Answer) → Type 0 where
    ended : (c d : pq.Conn) → pq.get_result c ≡ (d, none) → Stream c []
    table :
        (c d : pq.Conn) (r : pq.Answer) (rs : List (pq.Conn × pq.Answer))
        → pq.get_result c ≡ (d, some r)
        → pq.result_status r ≡ tuples_ok
        → Stream d rs
        → Stream c ((d, r) ∷ rs)
    command :
        (c d : pq.Conn) (r : pq.Answer) (rs : List (pq.Conn × pq.Answer)) (o : Option py.Obj)
        → pq.get_result c ≡ (d, some r)
        → is_table (pq.result_status r) ≡ false
        → non_query_result py g pq (pq.result_status r) r d ≡ inr o
        → Stream d rs
        → Stream c ((d, r) ∷ rs)
    failure :
        (c d e : pq.Conn) (r : pq.Answer) (x : CallError)
        → pq.get_result c ≡ (d, some r)
        → is_table (pq.result_status r) ≡ false
        → non_query_result py g pq (pq.result_status r) r d ≡ inl x
        → pq.get_result d ≡ (e, none)
        → Stream e []
        → Stream c ((d, r) ∷ [])

  -- an asynchronous query on a connection
  abbrev pub pending : Query py pq → pq.Conn → Query py pq
  pending base c = record base {
    pgcnx = record base.pgcnx { base = record base.pgcnx.base { cnx = some c } };
    linked = true;
    async = fetching;
  }

  -- the query object that a normal query with this result has
  abbrev pub plain : Query py pq → pq.Answer → Query py pq
  plain base r = record base {
    linked = true;
    async = synchronous;
    result = some r;
    current_row = 0;
    max_row = pq.ntuples r;
    num_fields = pq.nfields r;
    col_types = get_col_types g (column_oids pq r (pq.nfields r) 0);
  }

  module _ (garbage : Bytes) where
    abbrev getresult : Query py pq → Query py pq × Return py.Obj
    getresult self = query_getresult py g pq garbage self

    -- the replies of `n` calls of `getresult`
    unfoldable pub getresults : ℕ → Query py pq → List (Return py.Obj)
    getresults zero self = []
    getresults (suc n) self = let s = getresult self in s.1 ∷ getresults n s.0

    -- the value of a command, where an empty text stands for None
    abbrev command_reply : CallError ⊎ Option py.Obj → Return py.Obj
    command_reply (inl e) = raises e
    command_reply (inr none) = gives (py.str_of [])
    command_reply (inr (some o)) = gives o

    -- The reply for one result: the rows that a normal query gives, or what it returns.
    abbrev pub reply : Query py pq → pq.Conn × pq.Answer → Return py.Obj
    reply base (d, r) =
        if is_table (pq.result_status r)
        then (getresult (plain base r)).1
        else command_reply (non_query_result py g pq (pq.result_status r) r d)

    -- The connection's state and the mode of the query do not matter for what `getresult` reads.
    pub alike :
        (c : Connection pq) (mode : AsyncMode) (base : Query py pq)
        → Alike py g pq (as_tuple py g pq garbage) (seen py g pq c mode base) base
    alike c mode base = (refl, λ k. tuple-seen py g pq garbage c mode (at_row py g pq base k))

    abbrev at_conn : Query py pq → pq.Conn → Connection pq
    at_conn base d = record base.pgcnx.base { cnx = some d }

    pub take_table :
        (base : Query py pq) (c d : pq.Conn) (r : pq.Answer)
        → pq.get_result c ≡ (d, some r)
        → pq.result_status r ≡ tuples_ok
        → (l : ℕ) × (getresult (pending base c)
            ≡ (pending (record (plain base r) { current_row = l }) d, (getresult (plain base r)).1))
    unfolding query_getresult get_async_result fetch_next take_answer all_rows
    take_table base c d r e s =
        let (l, (os, f, h)) =
          rows-alike py g pq (as_tuple py g pq garbage)
            (seen py g pq (at_conn base d) fetching (plain base r)) (plain base r)
            (alike (at_conn base d) fetching (plain base r)) (pq.ntuples r) 0 in
        (l, rw (e, s, f, h) refl)

    take_answer-other :
        (self : Query py pq) (c : pq.Conn) (r : pq.Answer) (s : Status)
        → is_table s ≡ false
        → take_answer py g pq self c r s ≡ non_query py g pq self c (non_query_result py g pq s r c)
    unfolding take_answer
    take_answer-other self c r tuples_ok h = cc
    take_answer-other self c r command_ok h = refl
    take_answer-other self c r copy_out h = refl
    take_answer-other self c r copy_in h = refl
    take_answer-other self c r empty_query h = refl
    take_answer-other self c r bad_response h = refl
    take_answer-other self c r fatal_error h = refl
    take_answer-other self c r nonfatal_error h = refl
    take_answer-other self c r other_status h = refl

    take_command :
        (base : Query py pq) (c d : pq.Conn) (r : pq.Answer) (o : Option py.Obj)
        → pq.get_result c ≡ (d, some r)
        → is_table (pq.result_status r) ≡ false
        → non_query_result py g pq (pq.result_status r) r d ≡ inr o
        → getresult (pending base c)
          ≡ (pending (record base { result = none }) d, command_reply (inr o))
    unfolding query_getresult get_async_result fetch_next
    take_command base c d r none e s f =
        rw (e, take_answer-other (pending base d) d r (pq.result_status r) s, f) refl
    take_command base c d r (some o) e s f =
        rw (e, take_answer-other (pending base d) d r (pq.result_status r) s, f) refl

    take_failure :
        (base : Query py pq) (c d e : pq.Conn) (r : pq.Answer) (x : CallError)
        → pq.get_result c ≡ (d, some r)
        → is_table (pq.result_status r) ≡ false
        → non_query_result py g pq (pq.result_status r) r d ≡ inl x
        → pq.get_result d ≡ (e, none)
        → getresult (pending base c) ≡ (pending (record base { result = none }) e, raises x)
    unfolding query_getresult get_async_result fetch_next
    take_failure base c d e r x h s f k =
        rw (h, take_answer-other (pending base d) d r (pq.result_status r) s, f, k) refl

    take_end :
        (base : Query py pq) (c d : pq.Conn)
        → pq.get_result c ≡ (d, none)
        → getresults 2 (pending base c) ≡ gives py.none_obj ∷ raises not_connected ∷ []
    unfolding getresults query_getresult get_async_result fetch_next
    take_end base c d e = rw e refl

    -- the replies to as many calls as there are results, and two more
    abbrev pub expected : Query py pq → List (pq.Conn × pq.Answer) → List (Return py.Obj)
    expected base rs = map (reply base) rs ++ (gives py.none_obj ∷ raises not_connected ∷ [])

    -- For an asynchronous query, whatever results the server delivers: each call of getresult gives
    -- the reply for the next of them, which is the reply of getresult on a normal query with this
    -- result, the value of a command (the empty text for None), or the error of a command, the next
    -- call gives None, and the call after that raises a TypeError.
    pub getresults-Stream :
        (base : Query py pq) (c : pq.Conn) (rs : List (pq.Conn × pq.Answer))
        → Stream c rs
        → getresults (suc (suc (length rs))) (pending base c) ≡ expected base rs
    unfolding getresults
    getresults-Stream base c rs (ended _ d e) = take_end base c d e
    getresults-Stream base c rs (table _ d r rest e s more) =
        let (l, t) = take_table base c d r e s in
        rw
          (
            t,
            is_table_lem (pq.result_status r) s,
            getresults-Stream (record (plain base r) { current_row = l }) d rest more,
          )
          refl
    getresults-Stream base c rs (command _ d r rest o e s f more) =
        rw
          (
            take_command base c d r o e s f,
            s,
            f,
            getresults-Stream (record base { result = none }) d rest more,
          )
          refl
    getresults-Stream base c rs (failure _ d e r x h s f k more) =
        rw
          (
            take_failure base c d e r x h s f k,
            s,
            f,
            getresults-Stream (record base { result = none }) e [] more,
          )
          refl
