-- ===== src/Dimensions.antt =====
-- The start of `cast_array` of pginternal.c: the delimiter, the dimension ranges, and the count of
-- the left braces in front of the first element.
pub mod Safety
use py_gre_sql.Base.{
  ℕ, zero, suc, ◌+◌, Bool, ◌||◌, ◌&&◌, [], ◌∷◌, Bytes, Option, none, some, ◌==◌, leb, if◌then◌else◌,
  length,
}
use py_gre_sql.Outcome.{Outcome, ok, err, out_of_fuel, bad_array_delimiter, bad_dimensions}
use py_gre_sql.Scan.{skip_blanks}

abbrev pub max_array_depth : ℕ
max_array_depth = 16

-- `delim`, where 0 stands for the comma
unfoldable pub array_delimiter : ℕ → Outcome ℕ
array_delimiter delim =
    if delim == 0
    then ok b','
    else if delim == b'{' || delim == b'}' || delim == b'\\'
    then err bad_array_delimiter
    else ok delim

-- `if (s != end && (*s == '+' || *s == '-')) ++s;`
unfoldable pub skip_sign : Bytes → Bytes
skip_sign [] = []
skip_sign (c ∷ s) = if c == b'+' || c == b'-' then s else c ∷ s

abbrev pub is_digit : ℕ → Bool
is_digit c = leb b'0' c && leb c b'9'

unfoldable pub skip_digits : Bytes → Bytes
skip_digits [] = []
skip_digits (c ∷ s) = let rest = skip_digits s in if is_digit c then rest else c ∷ s

-- One bound: a sign, and at least one digit. `none` is the `break`.
unfoldable pub digits_from : Bytes → Option Bytes
digits_from [] = none
digits_from (c ∷ s) = if is_digit c then some (skip_digits s) else none

abbrev pub skip_bound : Bytes → Option Bytes
skip_bound s = digits_from (skip_sign s)

-- `if (s == end || *s++ != c) break;`
unfoldable pub expect : ℕ → Bytes → Option Bytes
expect c [] = none
expect c (d ∷ s) = if d == c then some s else none

abbrev pub then_from : Option Bytes → (Bytes → Option Bytes) → Option Bytes
then_from none f = none
then_from (some s) f = f s

-- `[lower:upper]` and the blanks behind it
unfoldable pub skip_range : Bytes → Option Bytes
skip_range s = then_from (expect b'[' s) λ s₁. then_from (skip_bound (skip_blanks s₁)) λ s₂.
    then_from (expect b':' s₂)
      λ s₃. then_from (skip_bound s₃) λ s₄. then_from (expect b']' s₄) λ s₅. some (skip_blanks s₅)

-- behind a range: at `=` the dimensions are done
unfoldable pub at_equals : Bytes → Option Bytes
at_equals [] = none
at_equals (c ∷ s) = if c == b'=' then some (skip_blanks s) else none

-- Behind one range: the loop ends at `=`, and goes on by `k` at another range.
unfoldable pub after_range : (Bytes → Outcome (ℕ × Bytes)) → ℕ → Option Bytes → Outcome (ℕ × Bytes)
after_range k ranges none = err bad_dimensions
after_range k ranges (some s) = elim (at_equals s) [ some t ↦ ok (ranges + 1, t) | none ↦ k s ]

-- The loop over the dimension ranges: how many there are, and the text behind them.
unfoldable pub skip_ranges : ℕ → ℕ → Bytes → Outcome (ℕ × Bytes)
skip_ranges zero ranges s = out_of_fuel
skip_ranges (suc fuel) ranges s = after_range (skip_ranges fuel (ranges + 1)) ranges (skip_range s)

-- `*s`, where `last` is the byte at `end`
abbrev pub deref : ℕ → Bytes → ℕ
deref last [] = last
deref last (c ∷ s) = c

unfoldable pub dimensions : ℕ → Bytes → Outcome (ℕ × Bytes)
dimensions last s = if deref last s == b'[' then skip_ranges (suc (length s)) 0 s else ok (0, s)

-- the left braces at the start of the text, blanks between them passed over
unfoldable pub leading_braces : Bytes → ℕ
leading_braces [] = 0
leading_braces (c ∷ s) =
    let deeper = leading_braces s in
    if c == b'{' then suc deeper else if c == b' ' then deeper else 0
