-- ===== src/Source/Tests.antt =====
-- Runs of the methods of a source on results of one field, and their theorems at concrete inputs.
use py_gre_sql.Base.{
  ℕ, ◌+◌, ◌-◌, ◌≤◌, ℤ, pos, negsuc, true, List, [], ◌∷◌, ◌++◌, Bytes, none, some, ◌≡◌, refl, arith,
  length, replicate, codes,
}
use py_gre_sql.Python.Demo.{demo, demo_settings}
use py_gre_sql.Settings.{Settings}
use py_gre_sql.Libpq.{out_of_range}
use py_gre_sql.Libpq.Demo.{server}
use py_gre_sql.Source.{
  Connection, Source, Reply, byte_string, none_value, returned, raised, object_closed, null_pointer,
  result_dql, source_close, conn_source, check_source_obj, check_cnx_obj,
}
use py_gre_sql.Source.Execute.{source_execute}
use py_gre_sql.Source.Fetch.{move_last, move_next, source_fetch, source_move, fetch_row}
use py_gre_sql.Source.Copy.{source_putdata, source_getdata}
use py_gre_sql.Source.Fields.{
  int_desc, source_oidstatus, source_listinfo, source_fieldinfo, source_field,
}
use py_gre_sql.Source.Rows.{fetch-fetch}
use py_gre_sql.Source.All.{fetch-all}
use py_gre_sql.Source.Closed.{source_close-refused}
use py_gre_sql.Source.Executed.{Decided, source_execute-Decided}
use py_gre_sql.Source.Ends.{move_last-fetch_empty, move_last-fetch, fetch-field}
use py_gre_sql.Source.Invariant.{WellFormed}
use py_gre_sql.Source.Invariant.Reach.{
  execute_call, fetch_call, after_call, Reachable, created, called, Reachable-WellFormed,
}

abbrev settings : Settings Bytes
settings = demo_settings none

abbrev connection : Connection server
connection = record { valid = true; cnx = some 1; date_format = none }

-- a source with a result of so many rows, at a row
abbrev with_rows : ℕ → ℤ → Source server
with_rows n k = record {
  valid = true;
  pgcnx = connection;
  result = some n;
  encoding = 6;
  result_type = result_dql;
  arraysize = pos 1;
  current_row = k;
  max_row = n;
  num_fields = 1;
}

abbrev fetch : Source server → ℤ → Source server × Reply (List Bytes)
fetch self size = source_fetch demo settings server self (some (some size))

fetch-fetch_example :
    (rows₁ : List Bytes) × ((rows₂ : List Bytes) × ((self₁ : Source server) × ((self₂ : Source
            server)
          × (fetch (with_rows 3 (pos 0)) (pos 1) ≡ (self₁, returned rows₁))
          × (fetch self₁ (pos 5) ≡ (self₂, returned rows₂))
          × (fetch (with_rows 3 (pos 0)) (pos (1 + 5)) ≡ (self₂, returned (rows₁ ++ rows₂))))))
unfolding check_source_obj check_cnx_obj
fetch-fetch_example = fetch-fetch demo settings server (with_rows 3 (pos 0)) 1 5 refl

fetch-all_example :
    (l : List Bytes) × ((self₁ : Source server) × (fetch (with_rows 3 (pos 1)) (negsuc 0)
        ≡ (self₁, returned l))
      × (length l ≡ 3 - 1)
      × (fetch self₁ (pos 7) ≡ (self₁, returned [])))
unfolding check_source_obj check_cnx_obj
fetch-all_example =
    fetch-all demo settings server (with_rows 3 (pos 1)) 1 (pos 7) refl refl (omega arith)

move_last-fetch_empty_example :
    (self₁ : Source server) × ((self₂ : Source server) × (source_move move_last
          (with_rows 0 (pos 0))
        ≡ (self₁, returned tt))
      × (fetch self₁ (negsuc 0)
          ≡ (self₂, returned (demo.tuple_of (replicate 1 demo.none_obj) ∷ []))))
unfolding check_source_obj check_cnx_obj
move_last-fetch_empty_example =
    move_last-fetch_empty demo settings server (with_rows 0 (pos 0)) 0 refl refl refl (λ j. refl)

move_last-fetch_example :
    (self₁ : Source server) × ((self₂ : Source server) × (source_move move_last
          (with_rows 3 (pos 0))
        ≡ (self₁, returned tt))
      × (fetch self₁ (pos 1)
          ≡ (self₂, returned (fetch_row demo settings server 3 6 1 (pos 2) ∷ [])))
      × (self₂.current_row ≡ pos 3))
unfolding check_source_obj check_cnx_obj
move_last-fetch_example =
    move_last-fetch demo settings server (with_rows 3 (pos 0)) 3 2 refl refl refl

outside : (n i : ℕ) → 3 ≤ n → server.cell 3 (pos n) i ≡ out_of_range
outside n i h = ground arith

fetch-field_example :
    (l : List Bytes) × ((self₁ : Source server) × (fetch (with_rows 3 (pos 1)) (negsuc 0)
        ≡ (self₁, returned l))
      × (source_field server self₁ (int_desc (pos 0)) ≡ (self₁, null_pointer)))
unfolding check_source_obj check_cnx_obj
fetch-field_example =
    fetch-field demo settings server (with_rows 3 (pos 1)) 3 1 0 refl refl refl (omega arith)
      (omega arith) outside

abbrev closed : Source server
closed = (source_close (with_rows 3 (pos 0))).0

source_close-refused_example :
    (source_execute demo settings server closed (byte_string (codes "x"))
      ≡ (closed, raised object_closed))
    × (fetch closed (pos 1) ≡ (closed, raised object_closed))
    × (source_move move_next closed ≡ (closed, raised object_closed))
    × (source_putdata demo settings server closed none_value ≡ (closed, raised object_closed))
    × (source_getdata demo settings server closed (some true) ≡ (closed, raised object_closed))
    × (source_oidstatus server closed ≡ (closed, raised object_closed))
    × (source_listinfo server closed ≡ (closed, raised object_closed))
    × (source_fieldinfo server closed (int_desc (pos 0)) ≡ (closed, raised object_closed))
    × (source_field server closed (int_desc (pos 0)) ≡ (closed, raised object_closed))
source_close-refused_example =
    source_close-refused demo settings server (with_rows 3 (pos 0)) (byte_string (codes "x"))
      none_value (some (some (pos 1))) move_next (some true) (int_desc (pos 0))

source_execute-Decided_example :
    Decided demo settings server none
      (with_rows 3 (pos 2))
      1
      (some (codes "ab"))
      (source_execute demo settings server (with_rows 3 (pos 2)) (byte_string (codes "ab")))
unfolding check_source_obj check_cnx_obj
source_execute-Decided_example =
    source_execute-Decided demo settings server none (with_rows 3 (pos 2))
      (byte_string (codes "ab")) 1 refl refl

-- a query with two rows, of which one is fetched
abbrev after_query : Source server
after_query = after_call demo settings server (fetch_call none) (
    after_call demo settings server (execute_call (byte_string (codes "ab")))
      (conn_source connection (with_rows 7 (pos 9))))

after_query-Reachable : Reachable demo settings server after_query
after_query-Reachable =
    called (fetch_call none)
      (called (execute_call (byte_string (codes "ab"))) (created connection (with_rows 7 (pos 9))))

Reachable-WellFormed_example : WellFormed after_query
Reachable-WellFormed_example =
    Reachable-WellFormed demo settings server after_query after_query-Reachable
