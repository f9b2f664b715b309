-- ===== src/Query/Tests.antt =====
-- The theorems on queries at concrete inputs.
use py_gre_sql.Base.{
  ℕ, zero, suc, ◌≡◌, refl, ap, arith, true, [], ◌∷◌, Bytes, none, some, codes, replicate, get_elem?,
}
use py_gre_sql.Python.Demo.{demo, demo_settings}
use py_gre_sql.Settings.{Settings}
use py_gre_sql.Types.{get_col_types, get_type}
use py_gre_sql.Libpq.Demo.{server, streaming}
use py_gre_sql.Conn.{Return, gives}
use py_gre_sql.Convert.{cast_sized_text, text_or_bytes, get_decoded_string, codec}
use py_gre_sql.Query.{
  Query, synchronous, fetching, query_row_as_tuple, query_row_as_dict, values_from, items_from,
  query_value_in_column, cast_by, column_oids,
}
use py_gre_sql.Query.Rows.{query_getresult, query_one, as_tuple, as_dict, as_scalar}
use py_gre_sql.Query.Helpers.{Helpers, query_dictiter}
use py_gre_sql.Query.Cursor.{at_row}
use py_gre_sql.Query.Session.{
  View, Viewed, one, next, getresult, answers, cursor_answers, answers-cursor,
}
use py_gre_sql.Query.Async.{Stream, ended, table, pending, getresults, expected, getresults-Stream}
use py_gre_sql.Query.Stale.{dictiter-getresult_stale, one-one_skips, empty_row}

abbrev settings : Settings Bytes
settings = demo_settings none

-- a query with one row of one field
abbrev row_query : Query demo server
row_query = record {
  pgcnx = record {
    base = record { valid = true; cnx = some 1; date_format = none };
    cast_hook = none;
    notice_receiver = none;
  };
  linked = true;
  result = some 1;
  async = synchronous;
  encoding = 6;
  current_row = 0;
  max_row = 1;
  num_fields = 1;
  col_types = 8 ∷ [];
}

abbrev view : View Bytes
view = record {
  tuples = (0 ∷ b';' ∷ []) ∷ [];
  dicts = (b'a' ∷ b':' ∷ 0 ∷ b';' ∷ []) ∷ [];
  scalars = (0 ∷ []) ∷ [];
}

some-same : (x y : Bytes) → some x ≡ some y → x ≡ y
some-same x y h = cc

shows :
    (read : Query demo server → Return Bytes) (x : Bytes)
    → read row_query ≡ gives x
    → (k : ℕ) (o : Bytes) → get_elem? (x ∷ []) k ≡ some o
    → read (at_row demo settings server row_query k) ≡ gives o
shows read x h zero o e = rw h (ap gives (some-same x o e))
shows read x h (suc k) o e = cc

one_not_zero : row_query.num_fields ≡ 0 → ⊥
one_not_zero h = omega arith

row_query-Viewed : Viewed demo settings server [] row_query view
unfolding query_row_as_tuple query_row_as_dict values_from items_from query_value_in_column cast_by
    cast_sized_text text_or_bytes get_decoded_string codec
row_query-Viewed = (
  refl,
  λ h. one_not_zero h,
  (refl, shows (as_tuple demo settings server []) (0 ∷ b';' ∷ []) refl),
  (refl, shows (as_dict demo settings server []) (b'a' ∷ b':' ∷ 0 ∷ b';' ∷ []) refl),
  (refl, shows (as_scalar demo settings server []) (0 ∷ []) refl),
)

answers-cursor_example :
    answers demo settings server []
      (at_row demo settings server row_query 0)
      (one ∷ one ∷ next ∷ getresult ∷ [])
    ≡ cursor_answers demo view 0 (one ∷ one ∷ next ∷ getresult ∷ [])
answers-cursor_example =
    answers-cursor demo settings server [] row_query view row_query-Viewed
      (one ∷ one ∷ next ∷ getresult ∷ []) 0

abbrev sent : Query demo streaming
sent = record {
  pgcnx = record {
    base = record { valid = true; cnx = some 2; date_format = none };
    cast_hook = none;
    notice_receiver = none;
  };
  linked = true;
  result = some 7;
  async = fetching;
  encoding = 6;
  current_row = 0;
  max_row = 3;
  num_fields = 2;
  col_types = 8 ∷ 8 ∷ [];
}

two_results : Stream demo settings streaming 2 ((1, 2) ∷ (0, 1) ∷ [])
two_results = table 2 1 2 ((0, 1) ∷ []) refl refl (table 1 0 1 [] refl refl (ended 0 0 refl))

getresults-Stream_example :
    getresults demo settings streaming [] 4 (pending demo settings streaming sent 2)
    ≡ expected demo settings streaming [] sent ((1, 2) ∷ (0, 1) ∷ [])
getresults-Stream_example =
    getresults-Stream demo settings streaming [] sent 2 ((1, 2) ∷ (0, 1) ∷ []) two_results

abbrev helpers : Helpers demo streaming
helpers = record {
  dictiter = some (λ q. (q, gives (codes "<generator>")));
  namediter = none;
  namednext = none;
  scalariter = none;
  is_list = λ o. true;
  sequence_list = λ o q. (q, gives o);
}

abbrev ask_dictiter : Query demo streaming → Query demo streaming × Return Bytes
ask_dictiter self = query_dictiter demo settings streaming [] helpers self

dictiter-getresult_stale_example :
    ((ask_dictiter (pending demo settings streaming sent 0)).1 ≡ gives (codes "None"))
    × ((query_getresult demo settings streaming []
          (ask_dictiter (pending demo settings streaming sent 0)).0).1
        ≡ gives (demo.list_of (replicate 3 (empty_row demo settings streaming [] 2))))
dictiter-getresult_stale_example =
    dictiter-getresult_stale demo settings streaming [] helpers
      (λ q. (q, gives (codes "<generator>"))) sent 0 0 refl refl

abbrev first : Query demo streaming → Query demo streaming × Return Bytes
first self = query_one demo settings streaming [] self

one-one_skips_example :
    ((first (pending demo settings streaming (record sent { current_row = 0 }) 2)).1
      ≡ gives (0 ∷ b';' ∷ []))
    × ((first (first (pending demo settings streaming (record sent { current_row = 0 }) 2)).0).1
        ≡ gives (codes "None"))
unfolding query_row_as_tuple values_from query_value_in_column cast_by cast_sized_text text_or_bytes
    get_decoded_string codec get_col_types get_type column_oids
one-one_skips_example =
    one-one_skips demo settings streaming [] sent 2 1 0 2 1 (0 ∷ b';' ∷ []) refl refl refl refl
      (omega arith) refl refl
