-- ===== src/Conn/Tests.antt =====
-- The theorems on connections at concrete inputs.
use py_gre_sql.Base.{
  ℕ, suc, ◌≤◌, ◌≡◌, refl, arith, true, [], ◌∷◌, ◌++◌, Bytes, none, some, codes, length, replicate,
  length-append, length-replicate,
}
use py_gre_sql.Python.Demo.{demo, demo_settings}
use py_gre_sql.Settings.{Settings}
use py_gre_sql.Libpq.Demo.{server, streaming}
use py_gre_sql.Source.{byte_string}
use py_gre_sql.Outcome.{buffer_overflow}
use py_gre_sql.Conn.{ConnObject, gives, undefined}
use py_gre_sql.Conn.Execute.{
  conn_query, conn_send_query, query_object, query_args, sql_text, query_params, param_texts,
  call_libpq,
}
use py_gre_sql.Conn.Compose.{query-send_query, getresult}
use py_gre_sql.Conn.Insert.{none_item, bytes_item, insert_line, is_copy_special}
use py_gre_sql.Conn.Insert.Text.{read_line, escape}
use py_gre_sql.Conn.Insert.Send.{conn_inserttable}
use py_gre_sql.Conn.Insert.Copied.{NoZero}
use py_gre_sql.Conn.Insert.Lines.{null_told, bytes_told, insert_line-read_line}
use py_gre_sql.Conn.Insert.Bounds.{NoOverflow, insert_line-NoOverflow}
use py_gre_sql.Conn.Overrun.{inserttable_overrun}
use py_gre_sql.Query.{Query}

abbrev settings : Settings Bytes
settings = demo_settings none

abbrev connection : ConnObject demo streaming
connection = record {
  base = record { valid = true; cnx = some 7; date_format = none };
  cast_hook = none;
  notice_receiver = none;
}

query-send_query_example :
    (p : Query demo streaming) × ((q : Query demo streaming) × ((conn_query demo settings streaming
          connection
          (byte_string (codes "ab"))
          none).1
        ≡ gives (query_object p))
      × ((conn_send_query demo settings streaming connection (byte_string (codes "ab")) none).1
          ≡ gives (query_object q))
      × (getresult demo settings streaming [] p ≡ getresult demo settings streaming [] q))
unfolding query_args sql_text query_params param_texts call_libpq
query-send_query_example =
    query-send_query demo settings streaming [] connection (byte_string (codes "ab")) none 7 7 2 1
      (codes "ab") [] 2 refl refl refl refl refl refl

-- a text with a tab and a backslash
abbrev tricky : Bytes
tricky = b'a' ∷ b'\t' ∷ b'\\' ∷ b'N' ∷ []

nonzero : (n : ℕ) → suc n ≡ 0 → ⊥
nonzero n h = omega arith

tricky-NoZero : NoZero tricky
tricky-NoZero =
    (λ h. nonzero 96 h, (λ h. nonzero 8 h, (λ h. nonzero 91 h, (λ h. nonzero 77 h, tt))))

insert_line-read_line_example :
    (line : Bytes) × ((insert_line demo settings server 6 (bytes_item tricky ∷ none_item ∷ [])
        ≡ gives (line ++ (b'\n' ∷ [])))
      × (read_line line ≡ some (some tricky ∷ none ∷ [])))
unfolding escape is_copy_special
insert_line-read_line_example =
    insert_line-read_line demo settings server 6 (bytes_item tricky) (none_item ∷ []) (some tricky)
      (none ∷ []) (bytes_told tricky tricky-NoZero) (null_told, tt) (omega arith)

insert_line-NoOverflow_example :
    NoOverflow (insert_line demo settings server 6 (bytes_item tricky ∷ none_item ∷ []))
insert_line-NoOverflow_example =
    insert_line-NoOverflow demo settings server 6 (bytes_item tricky ∷ none_item ∷ [])

abbrev here : ConnObject demo server
here = record {
  base = record { valid = true; cnx = some 7; date_format = none };
  cast_hook = none;
  notice_receiver = none;
}

abbrev long_name : Bytes
long_name = replicate 8190 b'a'

abbrev long_identifier : Bytes
long_identifier = b'"' ∷ long_name ++ (b'"' ∷ [])

length-long_identifier : 8187 ≤ length long_identifier
length-long_identifier =
    omega (arith, length-append long_name (b'"' ∷ []), length-replicate {A = ℕ} 8190 b'a')

inserttable_overrun_example :
    (conn_inserttable demo settings server here (some (long_name, some [], none))).1
    ≡ undefined buffer_overflow
inserttable_overrun_example =
    inserttable_overrun demo settings server here 7 long_name long_identifier [] refl refl
      length-long_identifier
