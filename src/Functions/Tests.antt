-- ===== src/Functions/Tests.antt =====
-- The functions of the module on concrete arguments, and the theorems on them at such arguments.
use py_gre_sql.Base.{[], ◌∷◌, ◌++◌, none, some, codes, ◌≡◌, refl, arith}
use py_gre_sql.Python.Demo.{demo, demo_settings}
use py_gre_sql.Record.RoundTrip.{printed_record}
use py_gre_sql.Source.{byte_string, unicode, none_value}
use py_gre_sql.Conn.{gives, raises, string_expected, callable_expected}
use py_gre_sql.Functions.{
  cast_items, cast_unusable, escape_argument, string_argument, record_casts, pg_cast_record,
  pg_escape_string, Escapes,
}
use py_gre_sql.Functions.Columns.{column_values, pg_cast_record-columns}
use py_gre_sql.Functions.Defined.{IsDefined, pg_cast_record-IsDefined}

-- doubles each text
abbrev twice : Escapes
twice = record { escape_string = λ s. s ++ s; escape_bytea = λ s. s }

escapes :
    (pg_escape_string demo (demo_settings none) twice (byte_string (codes "ab"))
      ≡ gives (codes "abab"))
    × (pg_escape_string demo (demo_settings none) twice none_value ≡ raises string_expected)
    × (pg_cast_record demo (demo_settings none) [] (byte_string []) cast_unusable 0
        ≡ raises callable_expected)
unfolding pg_escape_string escape_argument pg_cast_record string_argument record_casts
escapes = (refl, refl, refl)

pg_cast_record-columns_example :
    pg_cast_record demo
      (demo_settings none)
      []
      (byte_string (printed_record b',' (some (codes "a,b") ∷ none ∷ some (codes "c") ∷ [])))
      (cast_items (some (codes "int") ∷ some (codes "int") ∷ none ∷ []))
      b','
    ≡ gives (
        demo.tuple_of (
          column_values demo
            ((λ o. o) ∷ (λ o. o) ∷ (λ o. o) ∷ [])
            demo.bytes_of
            (some (codes "a,b") ∷ none ∷ some (codes "c") ∷ [])))
pg_cast_record-columns_example =
    pg_cast_record-columns demo (demo_settings none) [] b',' (some (codes "int"))
      (some (codes "int") ∷ none ∷ []) ((λ o. o) ∷ (λ o. o) ∷ (λ o. o) ∷ []) (some (codes "a,b"))
      (none ∷ some (codes "c") ∷ []) (omega arith) ((λ o. refl), ((λ o. refl), ((λ o. refl), tt)))
      refl

pg_cast_record-IsDefined_example : IsDefined (
    pg_cast_record demo
      (demo_settings none)
      []
      (unicode (codes "(a,\"b\\"))
      (cast_items (none ∷ some (codes "int") ∷ []))
      0)
pg_cast_record-IsDefined_example =
    pg_cast_record-IsDefined demo (demo_settings none) [] (unicode (codes "(a,\"b\\"))
      (cast_items (none ∷ some (codes "int") ∷ [])) 0
