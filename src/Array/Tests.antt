-- ===== src/Array/Tests.antt =====
-- Runs of `cast_array`, and its theorems at concrete inputs.
use py_gre_sql.Base.{ℕ, [], ◌∷◌, List, Bytes, ◌≡◌, refl, arith, none, some, codes, map}
use py_gre_sql.Outcome.{
  Outcome, ok, err, fault, moved_past_end, Ensures, bad_dimensions, dimensions_mismatch,
  no_left_brace, unexpected_array_end, characters_after_array, subarray_expected,
  subarray_unexpected,
}
use py_gre_sql.Scan.{skip_blanks, next_nonblank, scan, trim_end, str_is_null}
use py_gre_sql.Dimensions.{
  array_delimiter, dimensions, skip_ranges, after_range, skip_range, at_equals, expect, digits_from,
  skip_digits, skip_sign, leading_braces,
}
use py_gre_sql.Quoting.{at_quote}
use py_gre_sql.Array.{
  Maker, cast_array, check_depth, loop, round, step, token, quoted_token, unquoted_token,
  at_element_end, append_element, element_value, token_bytes, unescape, after_element, close_level,
  after_subarray, subarray_after, pop_level, push_level, finish,
}
use py_gre_sql.Array.Printer.{printed, Nested, value}
use py_gre_sql.Array.Safety.{cast_array-Ensures}
use py_gre_sql.Array.RoundTrip.{cast_array-printed}
use py_gre_sql.Array.Overrun.{cast_array_overrun}

mutual
  pub data Sample : Type 0 where
    null : Sample
    text : Bytes → Sample
    arr : Samples → Sample

  pub data Samples : Type 0 where
    nil : Samples
    cons : Sample → Samples → Samples

samples : List Sample → Samples
samples [] = nil
samples (x ∷ xs) = cons x (samples xs)

abbrev texts : Maker Sample
texts = record { list_of = λ l. arr (samples l); none_obj = null; convert = λ b. some (text b) }

-- with the line that lets it compute
run : ℕ → Bytes → Outcome (List Sample)
unfolding cast_array array_delimiter dimensions skip_ranges after_range skip_range at_equals expect
    digits_from skip_digits skip_sign leading_braces check_depth skip_blanks next_nonblank loop
    round step token quoted_token unquoted_token at_quote at_element_end scan trim_end str_is_null
    append_element element_value token_bytes unescape after_element close_level after_subarray
    subarray_after pop_level push_level finish samples
run delim s = cast_array texts delim 0 s

parses :
    (run 0 (codes "{1, nUlL ,\"a \\\" b\", c d\\  }")
      ≡ ok (text (codes "1") ∷ null ∷ text (codes "a \" b") ∷ text (codes "c d ") ∷ []))
    × (run 0 (codes "{}") ≡ ok [])
    × (run b';' (codes "[1:2][-1:0]= {{a;b};{c,d}}")
        ≡ ok (
            arr (cons (text (codes "a")) (cons (text (codes "b")) nil))
            ∷ arr (cons (text (codes "c,d")) nil)
            ∷ []))
unfolding run
parses = (refl, refl, refl)

refuses :
    (run 0 (codes "[1:]={1,2,3}") ≡ err bad_dimensions)
    × (run 0 (codes "[3:5]={{1,2,3},{4,5,6}}") ≡ err dimensions_mismatch)
    × (run 0 (codes "()") ≡ err no_left_brace)
    × (run 0 (codes "{{}") ≡ err unexpected_array_end)
    × (run 0 (codes "{hi}   ?") ≡ err characters_after_array)
    × (run 0 (codes "{{a},b}") ≡ err subarray_expected)
    × (run 0 (codes "{a,{b,c}}") ≡ err subarray_unexpected)
unfolding run
refuses = (refl, refl, refl, refl, refl, refl, refl)

abbrev nested : Nested 2
nested = (some (codes "a\"\\") ∷ none ∷ []) ∷ [] ∷ []

cast_array-Ensures_example :
    Ensures
      (λ (r : List Sample). Unit)
      (λ f. f ≡ moved_past_end)
      (cast_array texts 0 0 (codes "{\"b}"))
cast_array-Ensures_example = cast_array-Ensures texts 0 0 (codes "{\"b}")

cast_array-printed_example :
    cast_array texts b',' 0 (printed b',' 1 nested) ≡ ok (map (value texts text 1) nested)
cast_array-printed_example =
    cast_array-printed texts text b',' 0 1 nested (λ b. refl) (omega arith) (omega arith) tt

cast_array_overrun_example : cast_array texts 0 0 (codes "{\"b}") ≡ fault moved_past_end
cast_array_overrun_example = cast_array_overrun texts 0 (codes "b}") (omega arith)
