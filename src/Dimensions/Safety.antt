-- ===== src/Dimensions/Safety.antt =====
-- The loop over the dimension ranges ends, since each range takes at least one byte.
use py_gre_sql.Base.{
  ℕ, zero, suc, ◌+◌, ◌≤◌, ◌<◌, [], ◌∷◌, Bytes, ◌≡◌, arith, length, Option, none, some,
}
use py_gre_sql.Outcome.{Outcome, Ensures, moved_past_end}
use py_gre_sql.Scan.{skip_blanks}
use py_gre_sql.Scan.Lengths.{length-skip_blanks}
use py_gre_sql.Dimensions.{
  array_delimiter, skip_sign, skip_digits, digits_from, expect, then_from, skip_bound, skip_range,
  after_range, skip_ranges, dimensions,
}

-- what is left has at most so many bytes
abbrev Leaves : ℕ → Option Bytes → Type 0
Leaves n none = Unit
Leaves n (some t) = length t ≤ n

Leaves-then_from :
    (n k : ℕ) (o : Option Bytes) (f : Bytes → Option Bytes)
    → Leaves n o
    → ((t : Bytes) → length t ≤ n → Leaves k (f t))
    → Leaves k (then_from o f)
Leaves-then_from n k none f h g = tt
Leaves-then_from n k (some t) f h g = g t h

length-skip_sign : (s : Bytes) → length (skip_sign s) ≤ length s
unfolding skip_sign
length-skip_sign [] = omega arith
length-skip_sign (c ∷ s) = ground arith

length-skip_digits : (s : Bytes) → length (skip_digits s) ≤ length s
unfolding skip_digits
length-skip_digits [] = omega arith
length-skip_digits (c ∷ s) = ground (arith, length-skip_digits s)

Leaves-digits_from : (n : ℕ) (s : Bytes) → length s ≤ n → Leaves n (digits_from s)
unfolding digits_from
Leaves-digits_from n [] h = tt
Leaves-digits_from n (c ∷ s) h = ground (arith, length-skip_digits s)

Leaves-skip_bound : (n : ℕ) (s : Bytes) → length s ≤ n → Leaves n (skip_bound s)
Leaves-skip_bound n s h = Leaves-digits_from n (skip_sign s) (omega (arith, length-skip_sign s))

Leaves-expect : (n c : ℕ) (s : Bytes) → length s ≤ suc n → Leaves n (expect c s)
unfolding expect
Leaves-expect n c [] h = tt
Leaves-expect n c (d ∷ s) h = ground arith

weaken : (n : ℕ) (s : Bytes) → length s ≤ n → length s ≤ suc n
weaken n s h = omega arith

Leaves-skip_range : (n : ℕ) (s : Bytes) → length s ≤ suc n → Leaves n (skip_range s)
unfolding skip_range
Leaves-skip_range n s h = Leaves-then_from n n _ _ (Leaves-expect n b'[' s h) λ s₁ h₁.
    Leaves-then_from n n _ _
      (Leaves-skip_bound n (skip_blanks s₁) (omega (arith, length-skip_blanks s₁)))
      λ s₂ h₂. Leaves-then_from n n _ _ (Leaves-expect n b':' s₂ (weaken n s₂ h₂)) λ s₃ h₃.
        Leaves-then_from n n _ _ (Leaves-skip_bound n s₃ h₃) λ s₄ h₄.
          Leaves-then_from n n _ _ (Leaves-expect n b']' s₄ (weaken n s₄ h₄))
            λ s₅ h₅. omega (arith, length-skip_blanks s₅)

abbrev Fine : Outcome (ℕ × Bytes) → Type 0
Fine = Ensures (λ r. Unit) (λ f. f ≡ moved_past_end)

after_range-Fine :
    (k : Bytes → Outcome (ℕ × Bytes)) (n ranges : ℕ) (o : Option Bytes)
    → Leaves n o
    → ((t : Bytes) → length t ≤ n → Fine (k t))
    → Fine (after_range k ranges o)
unfolding after_range
after_range-Fine k n ranges none h g = tt
after_range-Fine k n ranges (some s) h g = ground (arith, g s h)

skip_ranges-Fine :
    (fuel ranges : ℕ) (s : Bytes) → length s < fuel → Fine (skip_ranges fuel ranges s)
unfolding skip_ranges after_range skip_range expect
skip_ranges-Fine zero ranges s h = absurd (omega arith)
skip_ranges-Fine (suc fuel) ranges [] h = tt
skip_ranges-Fine (suc fuel) ranges (c ∷ s) h =
    after_range-Fine _ (length s) ranges _ (Leaves-skip_range (length s) (c ∷ s) (omega arith))
      (λ t k. skip_ranges-Fine fuel (ranges + 1) t (omega arith))

pub dimensions-Ensures :
    (last : ℕ) (s : Bytes)
    → Ensures (λ (r : ℕ × Bytes). Unit) (λ f. f ≡ moved_past_end) (dimensions last s)
unfolding dimensions
dimensions-Ensures last s = ground (arith, skip_ranges-Fine (suc (length s)) 0 s)

pub array_delimiter-Ensures :
    (delim : ℕ) → Ensures (λ (d : ℕ). Unit) (λ f. f ≡ moved_past_end) (array_delimiter delim)
unfolding array_delimiter
array_delimiter-Ensures delim = ground arith
