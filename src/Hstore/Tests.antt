-- ===== src/Hstore/Tests.antt =====
-- Runs of `cast_hstore`, and its theorems at concrete inputs.
use py_gre_sql.Base.{arith, [], ◌∷◌, List, Bytes, ◌≡◌, refl, none, some, codes}
use py_gre_sql.Outcome.{
  Outcome, ok, err, uninitialised, Ensures, unterminated_quote, missing_key, missing_value,
  missing_entry, characters_after_key, characters_after_value,
}
use py_gre_sql.Scan.{skip_blanks, scan, str_is_null}
use py_gre_sql.Quoting.{at_quote}
use py_gre_sql.Hstore.{
  at_key_end, at_value_end, strip, stripped, quoted_part, unquoted_key, unquoted_value, hstore_key,
  hstore_value, arrow, next_entry, Entry, entry, entries, cast_hstore,
}
use py_gre_sql.Hstore.Safety.{cast_hstore-Ensures}
use py_gre_sql.Hstore.RoundTrip.{printed_hstore, cast_hstore-printed}
use py_gre_sql.Hstore.Unwritten.{Letter, behind_backslash, bare}

run : Bytes → Outcome (List Entry)
unfolding cast_hstore entries entry hstore_key unquoted_key quoted_part scan at_quote at_key_end
    stripped arrow hstore_value unquoted_value at_value_end str_is_null strip skip_blanks next_entry
run s = cast_hstore s

parses :
    (run (codes " a => 1 , \"b c\"=>\"x\\\"y\",d=>nUlL ")
      ≡ ok (
          (codes "a", some (codes "1"))
          ∷ (codes "b c", some (codes "x\"y"))
          ∷ (codes "d", none)
          ∷ []))
    × (run (codes "  ") ≡ ok [])
unfolding run
parses = (refl, refl)

refuses :
    (run (codes "\"a") ≡ err unterminated_quote)
    × (run (codes "=>1") ≡ err missing_key)
    × (run (codes "a=>") ≡ err missing_value)
    × (run (codes "a=>1,") ≡ err missing_entry)
    × (run (codes "a b=>1") ≡ err characters_after_key)
    × (run (codes "a=>1 b") ≡ err characters_after_value)
unfolding run
refuses = (refl, refl, refl, refl, refl, refl)

abbrev two_entries : List Entry
two_entries = (codes "k\"", none) ∷ ([], some (codes "a\\,=>")) ∷ []

cast_hstore-Ensures_example :
    Ensures (λ (l : List Entry). Unit) (λ f. f ≡ uninitialised) (cast_hstore (codes "a=>\\x\\"))
cast_hstore-Ensures_example = cast_hstore-Ensures (codes "a=>\\x\\")

cast_hstore-printed_example : cast_hstore (printed_hstore two_entries) ≡ ok two_entries
cast_hstore-printed_example = cast_hstore-printed two_entries

-- "\\xy\\"
abbrev value : List Letter
value =
    behind_backslash b'x' ∷ bare b'y' (λ e. omega arith) (λ e. omega arith) (λ e. omega arith) ∷ []
