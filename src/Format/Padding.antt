-- ===== src/Format/Padding.antt =====
-- Writing to the buffer of `format_result` where there is room, and the lengths of what is written.
use py_gre_sql.Base.{
  ℕ, zero, suc, ◌+◌, ◌-◌, ◌/◌, ◌%◌, ◌≤◌, ◌<◌, ltb, ◌==◌, [], ◌∷◌, ◌++◌, Bytes, Bool-cases, length,
  take, replicate, length-append, length-replicate, append_assoc, append-nil, ◌≡◌, refl, sym, ap,
  arith, true, false, inl, inr,
}
use py_gre_sql.Outcome.{ok, fault, buffer_overflow}
use py_gre_sql.Format.{
  put_byte, put_text, put_dashes, pad_left, pad_right, print_decimal, footer, row_text,
}

pub ltb_lem : (a b : ℕ) → a < b → ltb a b ≡ true
ltb_lem a b h = ground arith

pub ltb_ge : (a b : ℕ) → b ≤ a → ltb a b ≡ false
ltb_ge a b h = ground arith

pub take-length : (s : Bytes) → take (length s) s ≡ s
take-length [] = refl
take-length (c ∷ s) = ap (λ t. c ∷ t) (take-length s)

pub length-pad_left : (k : ℕ) (s : Bytes) → length s ≤ k → length (pad_left k s) ≡ k
length-pad_left k s h = omega (
  arith,
  length-append (replicate (k - length s) b' ') s,
  length-replicate {A = ℕ} (k - length s) b' ',
)

pub length-pad_right : (k : ℕ) (s : Bytes) → length s ≤ k → length (pad_right k s) ≡ k
length-pad_right k s h = omega (
  arith,
  length-append s (replicate (k - length s) b' '),
  length-replicate {A = ℕ} (k - length s) b' ',
)

module _ (size : ℕ) where
  pub put_byte_lem :
      (c : ℕ) (out : Bytes) → length out < size → put_byte size c out ≡ ok (out ++ (c ∷ []))
  unfolding put_byte
  put_byte_lem c out h = rw (ltb_lem (length out) size h) refl

  pub put_text_lem :
      (k : ℕ) (s out : Bytes)
      → length s ≡ k
      → length out + k < size
      → put_text size k s out ≡ ok (out ++ s)
  unfolding put_text
  put_text_lem k s out e h =
      rw
        (
          ltb_lem (length out + length s) size (omega arith),
          ltb_ge (length s) k (omega arith),
          sym e,
          take-length s,
        )
        refl

  pub put_text-overflow :
      (k : ℕ) (s out : Bytes)
      → size ≤ length out + length s
      → put_text size k s out ≡ fault buffer_overflow
  unfolding put_text
  put_text-overflow k s out h = rw (ltb_ge (length out + length s) size h) refl

  pub put_dashes_lem :
      (k : ℕ) (out : Bytes)
      → length out + k ≤ size
      → put_dashes size k out ≡ ok (out ++ replicate k b'-')
  unfolding put_dashes
  put_dashes_lem zero out h = rw (append-nil out) refl
  put_dashes_lem (suc k) out h =
      rw
        (
          put_byte_lem b'-' out (omega arith),
          put_dashes_lem k (out ++ (b'-' ∷ [])) (omega (arith, length-append out (b'-' ∷ []))),
          append_assoc out (b'-' ∷ []) (replicate k b'-'),
        )
        refl

pub length-print_decimal : (fuel m : ℕ) → length (print_decimal fuel m) ≤ fuel
unfolding print_decimal
length-print_decimal zero m = omega arith
length-print_decimal (suc fuel) m = elim (Bool-cases (ltb m 10)) [
  | inl e ↦ rw e (omega arith)
  | inr e ↦ rw e (
      omega (
        arith,
        length-print_decimal fuel (m / 10),
        length-append (print_decimal fuel (m / 10)) ((b'0' + m % 10) ∷ []),
      ))
]

length-row_text : (m : ℕ) → length (row_text m) ≤ 6
unfolding row_text
length-row_text m = elim (Bool-cases (m == 1)) [
  | inl e ↦ rw e (omega arith)
  | inr e ↦ rw e (omega arith)
]

pub length-footer : (m : ℕ) → length (footer m) < 40
unfolding footer
length-footer m = omega (
  arith,
  length-print_decimal 10 m,
  length-row_text m,
  length-append (print_decimal 10 m) (row_text m),
)
