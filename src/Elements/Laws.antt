-- ===== src/Elements/Laws.antt =====
-- Arrays of texts, through the conversion of their elements.
use py_gre_sql.Base.{ℕ, suc, ◌<◌, ◌≡◌, refl, Bytes, none, some, arith}
use py_gre_sql.Settings.{Settings}
use py_gre_sql.Dimensions.{max_array_depth}
use py_gre_sql.Python.{Python}
use py_gre_sql.Outcome.{ok}
use py_gre_sql.Convert.{cast_sized_text, text_or_bytes}
use py_gre_sql.Array.Printer.{Nested, printed, value, LeadsDown}
use py_gre_sql.Array.RoundTrip.{cast_array-printed}
use py_gre_sql.Elements.{base_type, internal_cast, cast_element, array_maker, cast_array_value}

converts :
    (py : Python) (g : Settings py.Obj) (garbage : Bytes) (encoding : ℕ) (b : Bytes)
    → (array_maker py g garbage encoding 24 none).convert b ≡ some (text_or_bytes py g b encoding)
unfolding array_maker cast_element internal_cast base_type cast_sized_text
converts py g garbage encoding b = refl

-- A column of text arrays, cast with the code that `get_type` gives for it (24) and the default
-- delimiter: an array that is printed with quotes around each text, as PostgreSQL's syntax allows
-- for every text, becomes the list of lists of its texts, and None for NULL. A text is decoded;
-- where it cannot be, bytes stand for it that are made and passed on while the exception of the
-- decoder is still pending.
pub cast_array_value-texts :
    (py : Python) (g : Settings py.Obj) (garbage : Bytes) (encoding last d : ℕ)
    (xs : Nested (suc d))
    → d < max_array_depth
    → LeadsDown d xs
    → cast_array_value py g garbage encoding 24 none b',' last (printed b',' d xs)
      ≡ ok (
          value
            (array_maker py g garbage encoding 24 none)
            (λ s. text_or_bytes py g s encoding)
            (suc d)
            xs)
unfolding cast_array_value value array_maker
cast_array_value-texts py g garbage encoding last d xs small leads =
    let m = array_maker py g garbage encoding 24 none in
    rw (
      cast_array-printed m (λ s. text_or_bytes py g s encoding) b',' last d xs
        (converts py g garbage encoding) (omega arith) small leads)
