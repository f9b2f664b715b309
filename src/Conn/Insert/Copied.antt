-- ===== src/Conn/Insert/Copied.antt =====
-- What the loops that copy a text into the buffer of inserttable write, if there is room.
use py_gre_sql.Base.{
  ℕ, zero, suc, ◌+◌, ◌<◌, ==_ne, true, false, [], ◌∷◌, ◌++◌, Bytes, length, length-append, ◌≡◌, ◌≢◌,
  refl, ap, arith, Bool-cases, inl, inr, append_assoc, append-nil,
}
use py_gre_sql.Format.{sub_size}
use py_gre_sql.Format.Padding.{put_byte_lem, ltb_lem}
use py_gre_sql.Conn.{Return, gives, max_buffer_size}
use py_gre_sql.Conn.Insert.{Buffer, put, copy, put_null, is_copy_special}
use py_gre_sql.Conn.Insert.Text.{escape}

-- a C string
abbrev pub NoZero : Bytes → Type 0
NoZero [] = Unit
NoZero (c ∷ s) = (c ≢ 0) × NoZero s

sub_size-one : (n : ℕ) → sub_size (suc n) 1 ≡ n
unfolding sub_size
sub_size-one n = ground arith

pub put_lem :
    (c : ℕ) (out : Bytes) (room : ℕ)
    → length out < max_buffer_size
    → put c (out, suc room) ≡ gives (out ++ (c ∷ []), room)
unfolding put
put_lem c out room h = rw (put_byte_lem max_buffer_size c out h, sub_size-one room) refl

-- the room that a text leaves
abbrev pub Left : Return Buffer → Bytes → Bytes → ℕ → Type 0
Left r out text room = (left : ℕ) × ((r ≡ gives (out ++ text, left)) × (left + length text ≡ room))

pub length-snoc : (c : ℕ) (out : Bytes) → length (out ++ (c ∷ [])) ≡ suc (length out)
length-snoc c out = omega (arith, length-append out (c ∷ []))

pub not_lt_zero : (n : ℕ) → n < 0 → ⊥
not_lt_zero n h = omega arith

escape-special :
    (c : ℕ) (s : Bytes) → is_copy_special c ≡ true → escape (c ∷ s) ≡ b'\\' ∷ c ∷ escape s
unfolding escape
escape-special c s e = rw e refl

escape-plain : (c : ℕ) (s : Bytes) → is_copy_special c ≡ false → escape (c ∷ s) ≡ c ∷ escape s
unfolding escape
escape-plain c s e = rw e refl

-- a special byte, and what follows
copy_special :
    (c : ℕ) (s out : Bytes) (room left : ℕ)
    → c ≢ 0
    → is_copy_special c ≡ true
    → length out + suc room < max_buffer_size
    → room ≡ suc (suc left)
    → copy true (c ∷ s) (out, suc room) ≡ copy true s ((out ++ (b'\\' ∷ [])) ++ (c ∷ []), suc left)
unfolding copy
copy_special c s out room left z e h more =
    rw
      (
        ==_ne c 0 z,
        e,
        put_lem b'\\' out room (omega arith),
        more,
        put_lem c (out ++ (b'\\' ∷ [])) (suc left) (omega (arith, length-snoc b'\\' out)),
      )
      refl

copy_plain :
    (c : ℕ) (s out : Bytes) (room : ℕ)
    → c ≢ 0
    → is_copy_special c ≡ false
    → length out + suc room < max_buffer_size
    → copy true (c ∷ s) (out, suc room) ≡ copy true s (out ++ (c ∷ []), room)
unfolding copy
copy_plain c s out room z e h = rw (==_ne c 0 z, e, put_lem c out room (omega arith)) refl

copy_raw :
    (c : ℕ) (s out : Bytes) (room : ℕ)
    → c ≢ 0
    → length out + suc room < max_buffer_size
    → copy false (c ∷ s) (out, suc room) ≡ copy false s (out ++ (c ∷ []), room)
unfolding copy
copy_raw c s out room z h = rw (==_ne c 0 z, put_lem c out room (omega arith)) refl

two_more : (n : ℕ) → 1 < n → (m : ℕ) × (n ≡ suc (suc m))
two_more zero h = elim (not_lt_zero 1 h) [ ]
two_more (suc zero) h = (0, omega arith)
two_more (suc (suc n)) h = (n, refl)

Left-special :
    (c : ℕ) (s out : Bytes) (room r : ℕ)
    → c ≢ 0
    → is_copy_special c ≡ true
    → length out + suc room < max_buffer_size
    → room ≡ suc (suc r)
    → Left
        (copy true s ((out ++ (b'\\' ∷ [])) ++ (c ∷ []), suc r))
        ((out ++ (b'\\' ∷ [])) ++ (c ∷ []))
        (escape s)
        (suc r)
    → Left (copy true (c ∷ s) (out, suc room)) out (escape (c ∷ s)) (suc room)
Left-special c s out room r z e h more (left, rest) = (
  left,
  (
    rw
        (
          escape-special c s e,
          copy_special c s out room r z e h more,
          rest.0,
          append_assoc (out ++ (b'\\' ∷ [])) (c ∷ []) (escape s),
          append_assoc out (b'\\' ∷ []) (c ∷ escape s),
        )
        refl,
    omega (arith, more, ap length (escape-special c s e), rest.1),
  ),
)

Left-plain :
    (c : ℕ) (s out : Bytes) (room : ℕ)
    → c ≢ 0
    → is_copy_special c ≡ false
    → length out + suc room < max_buffer_size
    → Left (copy true s (out ++ (c ∷ []), room)) (out ++ (c ∷ [])) (escape s) room
    → Left (copy true (c ∷ s) (out, suc room)) out (escape (c ∷ s)) (suc room)
Left-plain c s out room z e h (left, rest) = (
  left,
  (
    rw
        (
          escape-plain c s e,
          copy_plain c s out room z e h,
          rest.0,
          append_assoc out (c ∷ []) (escape s),
        )
        refl,
    omega (arith, ap length (escape-plain c s e), rest.1),
  ),
)

pub copy_escaped :
    (s out : Bytes) (room : ℕ)
    → NoZero s
    → length out + room < max_buffer_size
    → length (escape s) < room
    → Left (copy true s (out, room)) out (escape s) room
unfolding copy escape
copy_escaped [] out room z h k = (room, (rw (append-nil out) refl, omega arith))
copy_escaped (c ∷ s) out zero z h k = elim (not_lt_zero (length (escape (c ∷ s))) k) [ ]
copy_escaped (c ∷ s) out (suc room) z h k = elim (Bool-cases (is_copy_special c)) [
  | inl e ↦
      let text = ap length (escape-special c s e) in
      let (r, more) = two_more room (omega (arith, text)) in
      Left-special c s out room r z.0 e h more (
        copy_escaped s ((out ++ (b'\\' ∷ [])) ++ (c ∷ [])) (suc r) z.1
          (omega (arith, more, length-snoc c (out ++ (b'\\' ∷ [])), length-snoc b'\\' out))
          (omega (arith, more, text)))
  | inr e ↦ Left-plain c s out room z.0 e h (
      copy_escaped s (out ++ (c ∷ [])) room z.1 (omega (arith, length-snoc c out))
        (omega (arith, ap length (escape-plain c s e))))
]

pub copy_unescaped :
    (s out : Bytes) (room : ℕ)
    → NoZero s
    → length out + room < max_buffer_size
    → length s < room
    → Left (copy false s (out, room)) out s room
unfolding copy
copy_unescaped [] out room z h k = (room, (rw (append-nil out) refl, omega arith))
copy_unescaped (c ∷ s) out zero z h k = elim (not_lt_zero (length (c ∷ s)) k) [ ]
copy_unescaped (c ∷ s) out (suc room) z h k =
    let (left, rest) =
      copy_unescaped s (out ++ (c ∷ [])) room z.1 (omega (arith, length-snoc c out))
        (omega arith) in
    (
      left,
      (
        rw (copy_raw c s out room z.0 h, rest.0, append_assoc out (c ∷ []) s) refl,
        omega (arith, rest.1),
      ),
    )

not_two_lt_one : 2 < suc zero → ⊥
not_two_lt_one h = omega arith

pub put_null_lem :
    (out : Bytes) (room : ℕ)
    → length out + room < max_buffer_size
    → 2 < room
    → Left (put_null (out, room)) out (b'\\' ∷ b'N' ∷ []) room
unfolding put_null
put_null_lem out zero h k = elim (not_lt_zero 2 k) [ ]
put_null_lem out (suc zero) h k = elim (not_two_lt_one k) [ ]
put_null_lem out (suc (suc room)) h k = (
  room,
  (
    rw
        (
          ltb_lem 2 (suc (suc room)) k,
          put_lem b'\\' out (suc room) (omega arith),
          put_lem b'N' (out ++ (b'\\' ∷ [])) room (omega (arith, length-snoc b'\\' out)),
          append_assoc out (b'\\' ∷ []) (b'N' ∷ []),
        )
        refl,
    omega arith,
  ),
)
