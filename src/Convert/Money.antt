-- ===== src/Convert/Money.antt =====
-- Amounts of money as PostgreSQL prints them.
use py_gre_sql.Base.{
  ℕ, zero, suc, ◌+◌, ◌-◌, ◌≤◌, ◌≡◌, ◌≢◌, refl, List, [], ◌∷◌, ◌++◌, Bytes, true, false, none, some,
  length, arith, ap, append-nil, ==_ne, ==_refl, ◌∙◌, sym,
}
use py_gre_sql.Dimensions.{is_digit}
use py_gre_sql.Settings.{Settings}
use py_gre_sql.Types.{pygres_money}
use py_gre_sql.Python.{Python}
use py_gre_sql.Convert.{money_byte, money_digits, cast_sized_simple, money_text, decimal_or_float}

-- a round of the loop
pub money_digits-skip :
    (point room c : ℕ) (s : Bytes)
    → money_byte point c ≡ none
    → money_digits point (suc room) (c ∷ s) ≡ money_digits point (suc room) s
unfolding money_digits
money_digits-skip point room c s e = rw (e, money_digits) refl

pub money_digits-keep :
    (point room c d : ℕ) (s : Bytes)
    → money_byte point c ≡ some d
    → money_digits point (suc room) (c ∷ s) ≡ d ∷ money_digits point room s
unfolding money_digits
money_digits-keep point room c d s e = rw (e, money_digits) refl

money_byte-digit : (point c : ℕ) → is_digit c ≡ true → money_byte point c ≡ some c
unfolding money_byte
money_byte-digit point c h = rw h refl

money_byte-mark :
    (point c : ℕ) → is_digit c ≡ false → c ≢ point → c ≢ b'(' → c ≢ b'-' → money_byte point c ≡ none
unfolding money_byte
money_byte-mark point c h i j k = rw (h, ==_ne c point i, ==_ne c b'(' j, ==_ne c b'-' k) refl

money_digits-none : (point room : ℕ) → money_digits point room [] ≡ []
unfolding money_digits
money_digits-none point zero = refl
money_digits-none point (suc room) = refl

-- The whole part of an amount, piece by piece: a digit, or what stands between the digits or in
-- front of them, such as a currency symbol, a blank or the separator of thousands.
pub data Piece (point : ℕ) : Type 0 where
  digit : (c : ℕ) → is_digit c ≡ true → Piece point
  mark : (c : ℕ) → is_digit c ≡ false → c ≢ point → c ≢ b'(' → c ≢ b'-' → Piece point

module _ {point : ℕ} where
  abbrev pub shown : List (Piece point) → Bytes
  shown [] = []
  shown (digit c h ∷ ps) = c ∷ shown ps
  shown (mark c h i j k ∷ ps) = c ∷ shown ps

  abbrev pub digits : List (Piece point) → Bytes
  digits [] = []
  digits (digit c h ∷ ps) = c ∷ digits ps
  digits (mark c h i j k ∷ ps) = digits ps

  -- what the loop keeps of such pieces, and the room that they leave
  money_digits-shown :
      (ps : List (Piece point)) (n room : ℕ) (rest : Bytes)
      → n ≡ length (digits ps) + room
      → money_digits point n (shown ps ++ rest) ≡ digits ps ++ money_digits point room rest
  unfolding money_digits
  money_digits-shown [] n room rest e = let same : n ≡ room = omega arith in rw same refl
  money_digits-shown (digit c h ∷ ps) zero room rest e = absurd (omega arith)
  money_digits-shown (digit c h ∷ ps) (suc n) room rest e =
      money_digits-keep point n c c (shown ps ++ rest) (money_byte-digit point c h)
      ∙ ap (◌∷◌ c) (money_digits-shown ps n room rest (omega arith))
  money_digits-shown (mark c h i j k ∷ ps) zero room rest e = money_digits-shown ps zero room rest e
  money_digits-shown (mark c h i j k ∷ ps) (suc n) room rest e =
      money_digits-skip point n c (shown ps ++ rest) (money_byte-mark point c h i j k)
      ∙ money_digits-shown ps (suc n) room rest e

-- A sign in front of an amount, as it is printed and as it is cast: a left parenthesis stands for
-- a minus too.
pub data Sign : Bytes → Bytes → Type 0 where
  positive : Sign [] []
  minus : Sign (b'-' ∷ []) (b'-' ∷ [])
  parenthesis : Sign (b'(' ∷ []) (b'-' ∷ [])

-- a byte that can be the decimal point of a locale
pub record IsPoint (point : ℕ) : Type 0 where
  pub no_digit : is_digit point ≡ false
  pub no_minus : point ≢ b'-'
  pub no_parenthesis : point ≢ b'('

money_byte-point : (point : ℕ) → IsPoint point → money_byte point point ≡ some b'.'
unfolding money_byte
money_byte-point point h = rw (h.no_digit, ==_refl point) refl

money_byte-minus : (point : ℕ) → point ≢ b'-' → money_byte point b'-' ≡ some b'-'
unfolding money_byte
money_byte-minus point h = rw (==_ne b'-' point (λ e. h (sym e))) refl

money_byte-parenthesis : (point : ℕ) → point ≢ b'(' → money_byte point b'(' ≡ some b'-'
unfolding money_byte
money_byte-parenthesis point h = rw (==_ne b'(' point (λ e. h (sym e))) refl

-- a sign, where there is room for it
money_digits-Sign :
    (point n room : ℕ) {m d : Bytes} (rest : Bytes)
    → IsPoint point
    → Sign m d
    → n ≡ length d + room
    → money_digits point n (m ++ rest) ≡ d ++ money_digits point room rest
money_digits-Sign point n room rest h positive e = let same : n ≡ room = omega arith in rw same refl
money_digits-Sign point zero room rest h minus e = absurd (omega arith)
money_digits-Sign point (suc n) room rest h minus e =
    let same : n ≡ room = omega arith in
    money_digits-keep point n b'-' b'-' rest (money_byte-minus point h.no_minus) ∙ rw same refl
money_digits-Sign point zero room rest h parenthesis e = absurd (omega arith)
money_digits-Sign point (suc n) room rest h parenthesis e =
    let same : n ≡ room = omega arith in
    money_digits-keep point n b'(' b'-' rest (money_byte-parenthesis point h.no_parenthesis)
    ∙ rw same refl

-- What is kept of an amount with a sign, whole part, decimal point and fraction.
amount_kept :
    (point n room : ℕ) {m d : Bytes} (whole fraction : List (Piece point))
    → IsPoint point
    → Sign m d
    → n ≡ length d + (length (digits whole) + suc (length (digits fraction) + room))
    → money_digits point n (m ++ (shown whole ++ (point ∷ shown fraction)))
      ≡ d ++ (digits whole ++ (b'.' ∷ digits fraction))
amount_kept point n room {m} {d} whole fraction h s e =
    let left = length (digits fraction) + room in
    let tail : money_digits point left (shown fraction) ≡ digits fraction =
      ap (money_digits point left) (sym (append-nil (shown fraction)))
      ∙ money_digits-shown fraction left room [] refl
      ∙ ap (λ t. digits fraction ++ t) (money_digits-none point room)
      ∙ append-nil (digits fraction) in
    rw
      (
        money_digits-Sign point n (length (digits whole) + suc left)
            (shown whole ++ (point ∷ shown fraction)) h s e,
        money_digits-shown whole (length (digits whole) + suc left) (suc left)
            (point ∷ shown fraction) refl,
        money_digits-keep point left point b'.' (shown fraction) (money_byte-point point h),
        tail,
      )
      refl

module _ (py : Python) (g : Settings py.Obj) where
  -- An amount of money as PostgreSQL prints it: a sign or a left parenthesis for a negative one,
  -- digits with any marks between them, the decimal point that is set, and the fraction with what
  -- follows it. If it has at most 62 digits and signs, the cast of a column hands the type
  -- Decimal the text of that number: a minus for either sign, the digits, and a point.
  pub cast_sized_simple-amount :
      (garbage : Bytes) (last : ℕ) (f : py.Obj) {m d : Bytes}
      (whole fraction : List (Piece g.decimal_point))
      → g.decimal ≡ some f
      → IsPoint g.decimal_point
      → Sign m d
      → length d + length (digits whole) + length (digits fraction) ≤ 62
      → cast_sized_simple py g garbage last
          (m ++ (shown whole ++ (g.decimal_point ∷ shown fraction)))
          pygres_money
        ≡ py.call f (py.str_of (d ++ (digits whole ++ (b'.' ∷ digits fraction))) ∷ [])
  unfolding cast_sized_simple money_text decimal_or_float
  cast_sized_simple-amount garbage last f {m} {d} whole fraction e h s small =
      let room = 62 - (length d + length (digits whole) + length (digits fraction)) in
      let kept = amount_kept g.decimal_point 63 room whole fraction h s (omega arith) in
      rw (e, decimal_or_float) (rw (kept, e) refl)
