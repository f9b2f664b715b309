-- ===== src/Query/Session.antt =====
-- Any sequence of calls of the methods of a query that is not asynchronous, against the cursor.
use py_gre_sql.Base.{
  ℕ, zero, suc, false, ==_ne, ℤ, pos, negsuc, List, [], ◌∷◌, Bytes, Option, none, some, length,
  get_elem?, drop, ◌+◌, ◌≡◌, ◌≢◌, refl, sym, arith, Option-cases, inl, inr,
}
use py_gre_sql.Python.{Python}
use py_gre_sql.Settings.{Settings}
use py_gre_sql.Libpq.{Libpq}
use py_gre_sql.Conn.{Return, gives, raises, ◌>>=◌, stop_iteration, index_error}
use py_gre_sql.Query.{Query, synchronous, itself, get_async_result}
use py_gre_sql.Query.Rows.{
  Iterated, the_query, other_object, as_tuple, as_dict, as_scalar, query_getitem, query_iter,
  query_next, query_one, query_single, query_getresult, query_onedict, query_singledict,
  query_dictresult, query_onescalar, query_singlescalar, query_scalarresult, scalars_from,
}
use py_gre_sql.Query.Cursor.{
  take_row, only_row, at_row, Shows, next_row_lem, one_row_lem, single_row_lem, all_rows_lem,
  get_elem?-none, get_elem?-some, leb-true, leb-false, get_elem?-drop, drop-length, zero_add_eq,
}

-- the methods
pub data Request : Type 0 where
  item : ℤ → Request
  iter next : Request
  one single getresult : Request
  onedict singledict dictresult : Request
  onescalar singlescalar scalarresult : Request

-- the rows of a result as tuples, as dictionaries, and their first values
pub record View (Obj : Type 0) : Type 0 where
  pub tuples : List Obj
  pub dicts : List Obj
  pub scalars : List Obj

module _ (py : Python) where
  abbrev pub Answer : Type 0
  Answer = Return (Iterated py.Obj)

  abbrev pub answered : Return py.Obj → Answer
  answered r = r >>= λ o. gives (other_object o)

  -- the cursor's answer and its new row number
  abbrev item_of : ℕ → ℕ → Option py.Obj → ℕ × Answer
  item_of k i none = (k, raises index_error)
  item_of k i (some o) = (i, gives (other_object o))

  abbrev cursor_step : ℕ × Return py.Obj → ℕ × Answer
  cursor_step (k, r) = (k, answered r)

  abbrev all_of : List py.Obj → ℕ × Answer
  all_of rows = (length rows, gives (other_object (py.list_of rows)))

  unfoldable pub cursor : View py.Obj → ℕ → Request → ℕ × Answer
  cursor v k (item (negsuc i)) = (k, raises index_error)
  cursor v k (item (pos i)) = item_of k i (get_elem? v.tuples i)
  cursor v k iter = (0, gives the_query)
  cursor v k next = cursor_step (take_row (raises stop_iteration) v.tuples k)
  cursor v k one = cursor_step (take_row (gives py.none_obj) v.tuples k)
  cursor v k single = cursor_step (only_row v.tuples k)
  cursor v k getresult = all_of v.tuples
  cursor v k onedict = cursor_step (take_row (gives py.none_obj) v.dicts k)
  cursor v k singledict = cursor_step (only_row v.dicts k)
  cursor v k dictresult = all_of v.dicts
  cursor v k onescalar = cursor_step (take_row (gives py.none_obj) v.scalars k)
  cursor v k singlescalar = cursor_step (only_row v.scalars k)
  cursor v k scalarresult = all_of v.scalars

  unfoldable pub cursor_answers : View py.Obj → ℕ → List Request → List Answer
  cursor_answers v k [] = []
  cursor_answers v k (r ∷ rs) = let s = cursor v k r in s.1 ∷ cursor_answers v s.0 rs

module _ (py : Python) (g : Settings py.Obj) (pq : Libpq) (garbage : Bytes) where
  abbrev replied : Query py pq × Return py.Obj → Query py pq × Answer py
  replied (self, r) = (self, answered py r)

  -- the methods of the query
  unfoldable pub respond : Query py pq → Request → Query py pq × Answer py
  respond self (item i) = replied (query_getitem py g pq garbage self i)
  respond self iter = query_iter py g pq garbage self
  respond self next = replied (query_next py g pq garbage self)
  respond self one = replied (query_one py g pq garbage self)
  respond self single = replied (query_single py g pq garbage self)
  respond self getresult = replied (query_getresult py g pq garbage self)
  respond self onedict = replied (query_onedict py g pq garbage self)
  respond self singledict = replied (query_singledict py g pq garbage self)
  respond self dictresult = replied (query_dictresult py g pq garbage self)
  respond self onescalar = replied (query_onescalar py g pq garbage self)
  respond self singlescalar = replied (query_singlescalar py g pq garbage self)
  respond self scalarresult = replied (query_scalarresult py g pq garbage self)

  unfoldable pub answers : Query py pq → List Request → List (Answer py)
  answers self [] = []
  answers self (r ∷ rs) = let s = respond self r in s.1 ∷ answers s.0 rs

  module _ (base : Query py pq) (v : View py.Obj) where
    -- The query is not asynchronous, has a field, and all its rows can be read, as `v` tells.
    abbrev pub Viewed : Type 0
    Viewed =
        (base.async ≡ synchronous)
        × (base.num_fields ≢ 0)
        × Shows py g pq (as_tuple py g pq garbage) base v.tuples
        × Shows py g pq (as_dict py g pq garbage) base v.dicts
        × Shows py g pq (as_scalar py g pq garbage) base v.scalars

    sync_lem :
        base.async ≡ synchronous
        → (k : ℕ)
        → get_async_result py g pq (at_row py g pq base k) false ≡ (at_row py g pq base k, itself)
    unfolding get_async_result
    sync_lem e k = rw e refl

    scalars_from_lem :
        Shows py g pq (as_scalar py g pq garbage) base v.scalars
        → (n k : ℕ) → n + k ≡ length v.scalars
        → scalars_from py g pq garbage n (at_row py g pq base k)
          ≡ (at_row py g pq base (length v.scalars), gives (drop k v.scalars))
    unfolding scalars_from
    scalars_from_lem s zero k h =
        let e = zero_add_eq k (length v.scalars) h in rw (drop-length v.scalars k e, sym e) refl
    scalars_from_lem s (suc n) k h =
        let (o, found) = get_elem?-drop v.scalars k (omega arith) in
        rw (s.1 k o found.0, scalars_from_lem s n (suc k) (omega arith), found.1) refl

    module _ (h : Viewed) (k : ℕ) where
      item_lem :
          (i : ℕ)
          → replied (query_getitem py g pq garbage (at_row py g pq base k) (pos i)) ≡ (
            at_row py g pq base (item_of py k i (get_elem? v.tuples i)).0,
            (item_of py k i (get_elem? v.tuples i)).1,
          )
      unfolding query_getitem
      item_lem i = elim (Option-cases (get_elem? v.tuples i)) [
        | inl e ↦
            rw
              (
                sync_lem h.0 k,
                e,
                leb-true base.max_row i (omega (arith, h.2.0, get_elem?-none v.tuples i e)),
              )
              refl
        | inr (o, e) ↦
            rw
              (
                sync_lem h.0 k,
                e,
                leb-false base.max_row i (omega (arith, h.2.0, get_elem?-some v.tuples i o e)),
                h.2.1 i o e,
              )
              refl
      ]

      pub respond_lem :
          (r : Request)
          → respond (at_row py g pq base k) r
            ≡ (at_row py g pq base (cursor py v k r).0, (cursor py v k r).1)
      unfolding respond cursor query_iter query_next query_one query_single query_getresult
          query_getitem query_onedict query_singledict query_dictresult query_onescalar
          query_singlescalar query_scalarresult
      respond_lem (item (negsuc i)) = rw (sync_lem h.0 k) refl
      respond_lem (item (pos i)) = item_lem i
      respond_lem iter = rw (sync_lem h.0 k) refl
      respond_lem next =
          rw (next_row_lem py g pq (as_tuple py g pq garbage) base v.tuples h.2 k) refl
      respond_lem one =
          rw (sync_lem h.0 k, one_row_lem py g pq (as_tuple py g pq garbage) base v.tuples h.2 k)
            refl
      respond_lem single =
          rw (sync_lem h.0 k, single_row_lem py g pq (as_tuple py g pq garbage) base v.tuples h.2 k)
            refl
      respond_lem getresult =
          rw (sync_lem h.0 k, all_rows_lem py g pq (as_tuple py g pq garbage) base v.tuples h.2 k)
            refl
      respond_lem onedict =
          rw (sync_lem h.0 k, one_row_lem py g pq (as_dict py g pq garbage) base v.dicts h.3 k) refl
      respond_lem singledict =
          rw (sync_lem h.0 k, single_row_lem py g pq (as_dict py g pq garbage) base v.dicts h.3 k)
            refl
      respond_lem dictresult =
          rw (sync_lem h.0 k, all_rows_lem py g pq (as_dict py g pq garbage) base v.dicts h.3 k)
            refl
      respond_lem onescalar =
          rw
            (
              sync_lem h.0 k,
              ==_ne base.num_fields 0 h.1,
              one_row_lem py g pq (as_scalar py g pq garbage) base v.scalars h.4 k,
            )
            refl
      respond_lem singlescalar =
          rw
            (
              sync_lem h.0 k,
              ==_ne base.num_fields 0 h.1,
              single_row_lem py g pq (as_scalar py g pq garbage) base v.scalars h.4 k,
            )
            refl
      respond_lem scalarresult =
          rw
            (
              sync_lem h.0 k,
              ==_ne base.num_fields 0 h.1,
              scalars_from_lem h.4 base.max_row 0 (omega (arith, h.4.0)),
            )
            refl

    -- For a query that is not asynchronous, has at least one field, and whose rows can all be read
    -- as tuples, as dictionaries and as single values: whatever methods are called in whatever
    -- order (indexing, iteration, one, single, getresult and their forms for dictionaries and single
    -- values), they answer as a cursor over the lists of these rows does from the same row number.
    pub answers-cursor :
        Viewed
        → (rs : List Request) (k : ℕ)
        → answers (at_row py g pq base k) rs ≡ cursor_answers py v k rs
    unfolding answers cursor_answers
    answers-cursor h [] k = refl
    answers-cursor h (r ∷ rs) k =
        rw (respond_lem h k r, answers-cursor h rs (cursor py v k r).0) refl
