-- ===== src/Elements/Tests.antt =====
-- The theorem on arrays of texts at a concrete input.
use py_gre_sql.Base.{[], ◌∷◌, ◌≡◌, none, some, codes, arith}
use py_gre_sql.Python.Demo.{demo, demo_settings}
use py_gre_sql.Outcome.{ok}
use py_gre_sql.Convert.{text_or_bytes}
use py_gre_sql.Array.Printer.{Nested, printed, value}
use py_gre_sql.Elements.{array_maker, cast_array_value}
use py_gre_sql.Elements.Laws.{cast_array_value-texts}

abbrev texts : Nested 1
texts = some (codes "a,\"b") ∷ none ∷ []

cast_array_value-texts_example :
    cast_array_value demo (demo_settings none) [] 6 24 none b',' 0 (printed b',' 0 texts)
    ≡ ok (
        value
          (array_maker demo (demo_settings none) [] 6 24 none)
          (λ s. text_or_bytes demo (demo_settings none) s 6)
          1
          texts)
cast_array_value-texts_example =
    cast_array_value-texts demo (demo_settings none) [] 6 0 0 texts (omega arith) tt
