-- ===== src/Array/Overrun.antt =====
-- The one way in which `cast_array` leaves the text: a quoted element that the text does not end.
use py_gre_sql.Base.{ℕ, Bool, true, false, [], ◌∷◌, Bytes, ◌≡◌, refl, arith, ◌==◌, ◌≢◌}
use py_gre_sql.Outcome.{fault, moved_past_end}
use py_gre_sql.Scan.{skip_blanks, next_nonblank, scan}
use py_gre_sql.Dimensions.{array_delimiter, dimensions, leading_braces}
use py_gre_sql.Quoting.{at_quote}
use py_gre_sql.Array.{Maker, quoted_token, token, step, round, loop, check_depth, cast_array}

-- no byte of the text ends a quoted element
abbrev pub Unquoted : Bytes → Type 0
Unquoted [] = Unit
Unquoted (c ∷ s) = (c ≢ b'"') × Unquoted s

scan-Unquoted : (after : Bool) (s : Bytes) → Unquoted s → (scan at_quote after s).rest ≡ []
unfolding scan at_quote
scan-Unquoted after [] h = refl
scan-Unquoted true (c ∷ s) h = scan-Unquoted false s h.1
scan-Unquoted false (c ∷ s) h = ground (arith, scan-Unquoted (c == b'\\') s h.1)

-- An array whose first element is quoted and never ends its quote makes `cast_array` move its
-- pointer past the end of the text, with the default delimiter and any conversion, where the
-- code goes on to read; it does not raise the error "Unexpected end of array" there.
pub cast_array_overrun :
    {Obj : Type 0} (m : Maker Obj) (last : ℕ) (body : Bytes)
    → Unquoted body
    → cast_array m 0 last (b'{' ∷ b'"' ∷ body) ≡ fault moved_past_end
unfolding cast_array array_delimiter dimensions leading_braces check_depth skip_blanks next_nonblank
    loop round step token quoted_token
cast_array_overrun m last body h = rw (scan-Unquoted false body h)
