-- ===== src/Record/Tests.antt =====
-- Runs of `cast_record`, and its theorems at concrete inputs.
use py_gre_sql.Base.{ℕ, [], ◌∷◌, List, Bytes, ◌≡◌, refl, arith, Option, none, some, codes, inr}
use py_gre_sql.Outcome.{
  Outcome, ok, err, Ensures, no_left_parenthesis, too_many_columns, too_few_columns,
  unexpected_record_end, characters_after_record,
}
use py_gre_sql.Scan.{skip_blanks}
use py_gre_sql.Record.{
  record_delimiter, plain_move, move, scan_field, copy_field, whole_field, field_text, Maker,
  after_field, convert_field, fields, end_record, open_record, cast_record,
}
use py_gre_sql.Record.Safety.{cast_record-Ensures}
use py_gre_sql.Record.RoundTrip.{printed_record, field_values, cast_record-printed}

data Sample : Type 0 where
  null : Sample
  text : ℕ → Bytes → Sample

abbrev texts : Maker Sample
texts = record { none_obj = null; convert = λ i c b. ok (text i b) }

run : ℕ → Bytes → Outcome (List Sample)
unfolding record_delimiter plain_move move scan_field copy_field whole_field field_text after_field
    convert_field fields end_record open_record cast_record skip_blanks
run size s = cast_record texts 0 size s

parses :
    (run 0 (codes " (1,,\"a\"\"b\",c\\,d\"e,f\" )  ")
      ≡ ok (text 0 (codes "1") ∷ null ∷ text 0 (codes "a\"b") ∷ text 0 (codes "c,de,f ") ∷ []))
    × (run 2 (codes "(,x)") ≡ ok (null ∷ text 1 (codes "x") ∷ []))
unfolding run
parses = (refl, refl)

refuses :
    (run 0 (codes "a)") ≡ err no_left_parenthesis)
    × (run 1 (codes "(a,b)") ≡ err too_many_columns)
    × (run 3 (codes "(a,b)") ≡ err too_few_columns)
    × (run 0 (codes "(a,\"b)") ≡ err unexpected_record_end)
    × (run 0 (codes "(a) ?") ≡ err characters_after_record)
unfolding run
refuses = (refl, refl, refl, refl, refl)

abbrev row : List (Option Bytes)
row = none ∷ some (codes "a\"\\,") ∷ []

cast_record-Ensures_example :
    Ensures (λ (l : List Sample). Unit) (λ f. ⊥) (cast_record texts 0 2 (codes "(\"a\"\"b\",c\\d)"))
cast_record-Ensures_example =
    cast_record-Ensures texts (λ f. ⊥) 0 2 (codes "(\"a\"\"b\",c\\d)") (λ i c b. tt)

cast_record-printed_example :
    cast_record texts b',' 3 (printed_record b',' (none ∷ row))
    ≡ ok (field_values texts b',' 3 text (none ∷ row) 0)
cast_record-printed_example =
    cast_record-printed texts text b',' 3 none row (λ i c b k. refl) (omega arith) (inr refl)
