-- ===== src/Scan/Lengths.antt =====
-- How far the scanning loops move the pointer, and what they leave between two pointers.
use py_gre_sql.Base.{
  ℕ, ◌+◌, ◌≤◌, Bool, true, false, [], ◌∷◌, ◌++◌, Bytes, ◌≡◌, refl, arith, ◌==◌, Bool-cases, length,
  suc, inl, inr,
}
use py_gre_sql.Outcome.{Ensures, moved_past_end}
use py_gre_sql.Scan.{skip_blanks, next_nonblank, scan, trim_end, cons_unless_blank}

pub length-skip_blanks : (s : Bytes) → length (skip_blanks s) ≤ length s
unfolding skip_blanks
length-skip_blanks [] = omega arith
length-skip_blanks (c ∷ s) = ground (arith, length-skip_blanks s)

-- `next_nonblank` takes a byte, or moves past the end.
pub length-next_nonblank :
    (s : Bytes) → Ensures (λ t. length t + 1 ≤ length s) (λ f. f ≡ moved_past_end) (next_nonblank s)
unfolding next_nonblank
length-next_nonblank [] = refl
length-next_nonblank (c ∷ s) = omega (arith, length-skip_blanks s)

-- A scan splits the text in two.
pub scan-append :
    (stop : ℕ → Bool) (after : Bool) (s : Bytes)
    → (scan stop after s).raw ++ (scan stop after s).rest ≡ s
unfolding scan
scan-append stop after [] = refl
scan-append stop true (c ∷ s) = rw (scan-append stop false s)
scan-append stop false (c ∷ s) = elim (Bool-cases (stop c)) [
  | inl e ↦ rw e
  | inr e ↦ rw e (rw (scan-append stop (c == b'\\') s))
]

pub length-scan :
    (stop : ℕ → Bool) (after : Bool) (s : Bytes)
    → length (scan stop after s).raw + length (scan stop after s).rest ≡ length s
unfolding scan
length-scan stop after [] = omega arith
length-scan stop true (c ∷ s) = omega (arith, length-scan stop false s)
length-scan stop false (c ∷ s) = ground (arith, length-scan stop (c == b'\\') s)

pub length-trim_end : (s : Bytes) → length (trim_end s) ≤ length s
unfolding trim_end
length-trim_end [] = omega arith
length-trim_end (c ∷ s) = bound (trim_end s) (length-trim_end s)
  where
    bound : (t : Bytes) → length t ≤ length s → length (cons_unless_blank c t) ≤ suc (length s)
    bound [] h = ground arith
    bound (d ∷ t) h = omega arith
