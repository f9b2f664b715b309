-- ===== src/Convert/Sized.antt =====
-- The two versions of the cast of simple types, on a sized text and on a C string.
use py_gre_sql.Base.{
  ℕ, zero, suc, ◌≤◌, ◌≡◌, refl, ap, [], ◌∷◌, Bytes, length, take, true, arith, none, append-nil,
  ◌⊎◌, inl, inr, Option-cases, some, sym, ◌∙◌,
}
use py_gre_sql.Settings.{Settings}
use py_gre_sql.Types.{is_set}
use py_gre_sql.Python.{Python}
use py_gre_sql.Convert.Money.{money_digits-skip, money_digits-keep}
use py_gre_sql.Convert.{
  buffer_room, money_digits, money_byte, unsized_money_byte, unsized_money_digits, money_text,
  cast_sized_simple, cast_unsized_simple,
}

take_all : (n : ℕ) (s : Bytes) → length s ≤ n → take n s ≡ s
take_all zero [] h = refl
take_all zero (c ∷ s) h = elim h [ ]
take_all (suc n) [] h = refl
take_all (suc n) (c ∷ s) h = ap (◌∷◌ c) (take_all n s (omega arith))

unsized_money_byte_lem : (point c : ℕ) → unsized_money_byte point c ≡ money_byte point c
unfolding money_byte unsized_money_byte
unsized_money_byte_lem point c = refl

unsized-skip :
    (point room c : ℕ) (s : Bytes)
    → money_byte point c ≡ none
    → unsized_money_digits point (c ∷ s) (suc room) ≡ unsized_money_digits point s (suc room)
unfolding unsized_money_digits
unsized-skip point room c s e =
    let same = unsized_money_byte_lem point c ∙ e in rw (same, unsized_money_digits) refl

unsized-keep :
    (point room c d : ℕ) (s : Bytes)
    → money_byte point c ≡ some d
    → unsized_money_digits point (c ∷ s) (suc room) ≡ d ∷ unsized_money_digits point s room
unfolding unsized_money_digits
unsized-keep point room c d s e =
    let same = unsized_money_byte_lem point c ∙ e in rw (same, unsized_money_digits) refl

-- the two loops over a money value
unsized_money_digits_lem :
    (point room : ℕ) (s : Bytes) → unsized_money_digits point s room ≡ money_digits point room s
unfolding money_digits unsized_money_digits
unsized_money_digits_lem point zero [] = refl
unsized_money_digits_lem point zero (c ∷ s) = refl
unsized_money_digits_lem point (suc room) [] = refl
unsized_money_digits_lem point (suc room) (c ∷ s) = elim (Option-cases (money_byte point c)) [
  | inl e ↦
      unsized-skip point room c s e
      ∙ unsized_money_digits_lem point (suc room) s
      ∙ sym (money_digits-skip point room c s e)
  | inr (d, e) ↦
      unsized-keep point room c d s e
      ∙ ap (◌∷◌ d) (unsized_money_digits_lem point room s)
      ∙ sym (money_digits-keep point room c d s e)
]

module _ (py : Python) (g : Settings py.Obj) where
  money_text_lem :
      (garbage s : Bytes)
      → (garbage ≡ []) ⊎ (is_set g.decimal ≡ true)
      → money_text py g garbage s ≡ money_digits g.decimal_point buffer_room s
  unfolding money_text
  money_text_lem garbage s (inl e) = rw e (rw append-nil (ground arith))
  money_text_lem garbage s (inr e) = rw e

  -- A value of at most 63 bytes is cast alike as a sized text and as a C string, whatever its
  -- type, if Decimal is set or the buffer held a zero behind the digits.
  pub cast_sized-eq-unsized :
      (garbage s : Bytes) (type : ℕ)
      → length s ≤ buffer_room
      → (garbage ≡ []) ⊎ (is_set g.decimal ≡ true)
      → cast_sized_simple py g garbage 0 s type ≡ cast_unsized_simple py g s type
  unfolding cast_sized_simple cast_unsized_simple
  cast_sized-eq-unsized garbage s type h k = rw (take_all buffer_room s h) (
      rw (money_text_lem garbage s k) (rw (unsized_money_digits_lem g.decimal_point buffer_room s)))
