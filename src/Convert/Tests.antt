-- ===== src/Convert/Tests.antt =====
-- The theorems on the casts of single values at concrete inputs.
use py_gre_sql.Base.{none, List, Bytes, [], ◌∷◌, ◌≡◌, refl, inr, some, codes, arith}
use py_gre_sql.Python.Demo.{demo, demo_settings}
use py_gre_sql.Types.{pygres_money}
use py_gre_sql.Convert.{
  text_or_bytes, get_decoded_string, codec, cast_sized_simple, cast_unsized_simple,
}
use py_gre_sql.Settings.{Settings}
use py_gre_sql.Convert.Money.{Piece, digit, mark, parenthesis, cast_sized_simple-amount}
use py_gre_sql.Convert.Sized.{cast_sized-eq-unsized}

abbrev settings : Settings Bytes
settings = demo_settings (some (codes "D"))

-- "$1,2" and "5)"
abbrev whole : List (Piece b'.')
whole =
    mark b'$' refl (λ e. omega arith) (λ e. omega arith) (λ e. omega arith)
    ∷ digit b'1' refl
    ∷ mark b',' refl (λ e. omega arith) (λ e. omega arith) (λ e. omega arith)
    ∷ digit b'2' refl
    ∷ []

abbrev fraction : List (Piece b'.')
fraction =
    digit b'5' refl ∷ mark b')' refl (λ e. omega arith) (λ e. omega arith) (λ e. omega arith) ∷ []

cast_sized_simple-amount_example :
    cast_sized_simple demo settings (codes "7") 0 (codes "($1,2.5)") pygres_money
    ≡ demo.call (codes "D") (demo.str_of (codes "-12.5") ∷ [])
cast_sized_simple-amount_example =
    cast_sized_simple-amount demo settings (codes "7") 0 (codes "D") whole fraction refl
      (record { no_digit = refl; no_minus = λ e. omega arith; no_parenthesis = λ e. omega arith })
      parenthesis (omega arith)

-- In UTF-8, a text with the byte 200 cannot be decoded here.
undecodable :
    (text_or_bytes demo (demo_settings none) (200 ∷ []) 6 ≡ demo.bytes_while_pending (200 ∷ []))
    × (text_or_bytes demo (demo_settings none) (codes "a") 6 ≡ codes "a")
unfolding text_or_bytes get_decoded_string codec
undecodable = (refl, refl)

cast_sized-eq-unsized_example :
    cast_sized_simple demo
      (demo_settings (some (codes "D")))
      (codes "7")
      0
      (codes "$12")
      pygres_money
    ≡ cast_unsized_simple demo (demo_settings (some (codes "D"))) (codes "$12") pygres_money
cast_sized-eq-unsized_example =
    cast_sized-eq-unsized demo (demo_settings (some (codes "D"))) (codes "7") (codes "$12")
      pygres_money (omega arith) (inr refl)
