-- ===== src/Conn/Insert/Reading.antt =====
-- What a server makes of the lines of COPY: it reads the values back, unless one of them has a
-- carriage return.
use py_gre_sql.Base.{
  ℕ, ◌==◌, ==_ne, if◌then◌else◌, Bool, true, false, ◌||◌, List, [], ◌∷◌, ◌++◌, map, Bytes, Option,
  none, some, ◌≡◌, ◌≢◌, refl, ap, ◌∙◌, sym, arith, Bool-cases, inl, inr, append-nil,
}
use py_gre_sql.Conn.Insert.{is_copy_special}
use py_gre_sql.Conn.Insert.Text.{
  escape, printed, tabbed, print_line, is_line_end, is_broken, read_line, special_cases, ordinary,
  push_all_lem, line_fields-printed, line_fields-tabbed, read_field-printed, read_fields-printed,
}

-- whether a text, or one of the values, has a carriage return
abbrev pub has_return : Bytes → Bool
has_return [] = false
has_return (c ∷ s) = c == b'\r' || has_return s

abbrev pub value_return : Option Bytes → Bool
value_return none = false
value_return (some s) = has_return s

abbrev pub any_return : List (Option Bytes) → Bool
any_return [] = false
any_return (v ∷ vs) = value_return v || any_return vs

or_false : (b : Bool) → (b || false) ≡ b
or_false true = refl
or_false false = refl

is_broken-plain :
    (c : ℕ) (t : Bytes) → c ≢ b'\\' → is_broken (c ∷ t) ≡ (is_line_end c || is_broken t)
unfolding is_broken
is_broken-plain c [] h = rw (==_ne c b'\\' h) (sym (or_false (is_line_end c)))
is_broken-plain c (d ∷ t) h = rw (==_ne c b'\\' h) refl

is_broken-special :
    (c : ℕ) (t : Bytes) → is_copy_special c ≡ true → is_broken (b'\\' ∷ c ∷ t) ≡ is_broken t
unfolding is_broken
is_broken-special c t h = elim (special_cases c h) [
  | inl e ↦ rw e refl
  | inr (inl e) ↦ rw e refl
  | inr (inr e) ↦ rw e refl
]

special_no_return : (c : ℕ) → is_copy_special c ≡ true → (c == b'\r') ≡ false
special_no_return c h = elim (special_cases c h) [
  | inl e ↦ rw e refl
  | inr (inl e) ↦ rw e refl
  | inr (inr e) ↦ rw e refl
]

ordinary_end : (c : ℕ) → is_copy_special c ≡ false → is_line_end c ≡ (c == b'\r')
unfolding is_copy_special
ordinary_end c h = ground arith

or_assoc : (a b c : Bool) → (a || (b || c)) ≡ ((a || b) || c)
or_assoc true b c = refl
or_assoc false b c = refl

is_broken-escape : (s t : Bytes) → is_broken (escape s ++ t) ≡ (has_return s || is_broken t)
unfolding escape
is_broken-escape [] t = refl
is_broken-escape (c ∷ s) t = elim (Bool-cases (is_copy_special c)) [
  | inl e ↦
      rw (e, is_broken-special c (escape s ++ t) e, special_no_return c e, is_broken-escape s t)
        refl
  | inr e ↦
      let (h, k) = ordinary c e in
      rw
        (
          e,
          is_broken-plain c (escape s ++ t) h,
          ordinary_end c e,
          is_broken-escape s t,
          or_assoc (c == b'\r') (has_return s) (is_broken t),
        )
        refl
]

is_broken-printed :
    (v : Option Bytes) (t : Bytes) → is_broken (printed v ++ t) ≡ (value_return v || is_broken t)
unfolding is_broken
is_broken-printed none t = refl
is_broken-printed (some s) t = is_broken-escape s t

is_broken-tabbed : (vs : List (Option Bytes)) → is_broken (tabbed (map printed vs)) ≡ any_return vs
unfolding is_broken
is_broken-tabbed [] = refl
is_broken-tabbed (v ∷ vs) =
    is_broken-plain b'\t' (printed v ++ tabbed (map printed vs)) (λ e. omega arith)
    ∙ is_broken-printed v (tabbed (map printed vs))
    ∙ ap (λ b. value_return v || b) (is_broken-tabbed vs)

is_broken-print_line :
    (v : Option Bytes) (vs : List (Option Bytes))
    → is_broken (print_line (v ∷ vs)) ≡ any_return (v ∷ vs)
is_broken-print_line v vs =
    is_broken-printed v (tabbed (map printed vs))
    ∙ ap (λ b. value_return v || b) (is_broken-tabbed vs)

pub read_line-print_line :
    (v : Option Bytes) (vs : List (Option Bytes))
    → read_line (print_line (v ∷ vs)) ≡ (if any_return (v ∷ vs) then none else some (v ∷ vs))
unfolding read_line
read_line-print_line v vs =
    rw
      (
        is_broken-print_line v vs,
        line_fields-printed v (tabbed (map printed vs)),
        line_fields-tabbed vs,
        push_all_lem (printed v) [] (map printed vs),
        append-nil (printed v),
        read_field-printed v,
        read_fields-printed vs,
      )
      refl
