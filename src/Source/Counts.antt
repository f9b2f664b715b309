-- ===== src/Source/Counts.antt =====
-- How many rows `fetch` gives, and the arithmetic of the current row.
use py_gre_sql.Base.{
  ℕ, zero, suc, ◌+◌, ◌-◌, ℤ, pos, negsuc, pos_part, ◌+ℤ◌, succ_ℤ, ltb, if◌then◌else◌, ◌≡◌, arith,
}
use py_gre_sql.Source.Fetch.{fetch_size}

-- how many rows `fetch` gives for a size
abbrev pub row_number : ℕ → ℤ → ℤ → ℕ
row_number max_row k size = pos_part (fetch_size max_row k size)

-- the rows from `k` on
abbrev pub left_rows : ℕ → ℤ → ℕ
left_rows max_row (pos k) = max_row - k
left_rows max_row (negsuc k) = max_row + suc k

abbrev pub smaller : ℕ → ℕ → ℕ
smaller a b = if ltb b a then b else a

pub row_number_lem :
    (max_row : ℕ) (k : ℤ) (m : ℕ) → row_number max_row k (pos m) ≡ smaller m (left_rows max_row k)
unfolding fetch_size
row_number_lem max_row (pos k) m = ground arith
row_number_lem max_row (negsuc k) m = ground arith

pub left_rows_add :
    (max_row : ℕ) (k : ℤ) (a : ℕ) → left_rows max_row (k +ℤ pos a) ≡ left_rows max_row k - a
left_rows_add max_row (pos k) a = ground arith
left_rows_add max_row (negsuc k) a = ground arith

pub smaller_add : (m n l : ℕ) → smaller (m + n) l ≡ smaller m l + smaller n (l - smaller m l)
smaller_add m n l = ground arith

pub row_number-split :
    (max_row : ℕ) (k : ℤ) (m n : ℕ)
    → row_number max_row k (pos (m + n))
      ≡ row_number max_row k (pos m)
        + row_number max_row (k +ℤ pos (row_number max_row k (pos m))) (pos n)
row_number-split max_row k m n =
    rw
      (
        row_number_lem max_row k (m + n),
        row_number_lem max_row (k +ℤ pos (row_number max_row k (pos m))) n,
        left_rows_add max_row k (row_number max_row k (pos m)),
        row_number_lem max_row k m,
      )
      (smaller_add m n (left_rows max_row k))

pub add_zero : (k : ℤ) → k +ℤ pos 0 ≡ k
add_zero (pos k) = ground arith
add_zero (negsuc k) = ground arith

pub zero-plus : (n : ℕ) → 0 + n ≡ n
zero-plus n = omega arith

pub suc-plus : (m n : ℕ) → suc m + n ≡ suc (m + n)
suc-plus m n = omega arith

pub succ_add : (k : ℤ) (n : ℕ) → succ_ℤ k +ℤ pos n ≡ k +ℤ pos (suc n)
succ_add (pos k) n = ground arith
succ_add (negsuc zero) n = ground arith
succ_add (negsuc (suc k)) n = ground arith

pub add_assoc : (k : ℤ) (a b : ℕ) → k +ℤ pos a +ℤ pos b ≡ k +ℤ pos (a + b)
add_assoc (pos k) a b = ground arith
add_assoc (negsuc k) a b = ground arith
