-- ===== src/Conn/Insert/Text.antt =====
-- The text format of COPY: what a line of values is, and how the server reads it.
use py_gre_sql.Base.{
  ℕ, ◌==◌, ==_ne, if◌then◌else◌, Bool, true, false, List, [], ◌∷◌, ◌++◌, map, Bytes, Option, none,
  some, ◌≡◌, ◌≢◌, refl, arith, Bool-cases, ◌⊎◌, inl, inr, append-nil, ◌||◌,
}
use py_gre_sql.Conn.Insert.{is_copy_special}

-- a backslash in front of each special byte
unfoldable pub escape : Bytes → Bytes
escape [] = []
escape (c ∷ t) = let rest = escape t in if is_copy_special c then b'\\' ∷ c ∷ rest else c ∷ rest

-- a value: NULL, or a text
abbrev pub printed : Option Bytes → Bytes
printed none = b'\\' ∷ b'N' ∷ []
printed (some s) = escape s

abbrev pub tabbed : List Bytes → Bytes
tabbed [] = []
tabbed (x ∷ xs) = b'\t' ∷ x ++ tabbed xs

-- the values with tabs between them
abbrev pub print_line : List (Option Bytes) → Bytes
print_line [] = []
print_line (v ∷ vs) = printed v ++ tabbed (map printed vs)

-- the first of the fields goes on with a byte
abbrev push : ℕ → List Bytes → List Bytes
push c [] = (c ∷ []) ∷ []
push c (f ∷ fs) = (c ∷ f) ∷ fs

-- A newline or a carriage return ends a line of COPY, or is refused, unless a backslash stands in
-- front of it.
abbrev pub is_line_end : ℕ → Bool
is_line_end c = c == b'\n' || c == b'\r'

-- Whether a text is no whole line: it has the end of a line in it, or the mark `\.` for the end of
-- the data, or a last backslash, which would take the newline behind it along.
unfoldable pub is_broken : Bytes → Bool
is_broken [] = false
is_broken (c ∷ []) = c == b'\\' || is_line_end c
is_broken (c ∷ d ∷ t) =
    let after = is_broken t in
    let rest = is_broken (d ∷ t) in if c == b'\\' then d == b'.' || after else is_line_end c || rest

-- A server's reading of a line: fields end at a tab that has no backslash in front.
unfoldable pub line_fields : Bytes → List Bytes
line_fields [] = [] ∷ []
line_fields (c ∷ []) = if c == b'\t' then [] ∷ [] ∷ [] else (c ∷ []) ∷ []
line_fields (c ∷ d ∷ t) =
    let after = line_fields t in
    let rest = line_fields (d ∷ t) in
    if c == b'\\' then push c (push d after) else if c == b'\t' then [] ∷ rest else push c rest

-- The control characters that a letter behind a backslash stands for; else the byte itself.
-- The digits of octal and hexadecimal codes are left out: no line that is written has them there.
abbrev pub letter : ℕ → ℕ
letter c =
    if c == b'b'
    then 8
    else if c == b'f'
    then 12
    else if c == b'n'
    then b'\n'
    else if c == b'r'
    then 13
    else if c == b't'
    then b'\t'
    else if c == b'v'
    then 11
    else c

unfoldable pub unescape_field : Bytes → Bytes
unescape_field [] = []
unescape_field (c ∷ []) = c ∷ []
unescape_field (c ∷ d ∷ t) =
    let after = unescape_field t in
    let rest = unescape_field (d ∷ t) in if c == b'\\' then letter d ∷ after else c ∷ rest

abbrev is_null : Bytes → Bool
is_null (a ∷ b ∷ []) = if a == b'\\' then b == b'N' else false
is_null _ = false

abbrev pub read_field : Bytes → Option Bytes
read_field f = if is_null f then none else some (unescape_field f)

-- The values of a line of COPY in text format; `none` if the server does not take the text for one
-- line of values.
unfoldable pub read_line : Bytes → Option (List (Option Bytes))
read_line s = if is_broken s then none else some (map read_field (line_fields s))

abbrev pub push_all : Bytes → List Bytes → List Bytes
push_all [] fs = fs
push_all (c ∷ s) fs = push c (push_all s fs)

pub push_all_lem : (s f : Bytes) (fs : List Bytes) → push_all s (f ∷ fs) ≡ (s ++ f) ∷ fs
push_all_lem [] f fs = refl
push_all_lem (c ∷ s) f fs = rw (push_all_lem s f fs) refl

pub special_cases : (c : ℕ) → is_copy_special c ≡ true → (c ≡ b'\\') ⊎ (c ≡ b'\t') ⊎ (c ≡ b'\n')
unfolding is_copy_special
special_cases c h = ground arith

pub ordinary : (c : ℕ) → is_copy_special c ≡ false → (c ≢ b'\\') × (c ≢ b'\t')
unfolding is_copy_special
ordinary c h = (ground arith, ground arith)

line_fields-plain :
    (c : ℕ) (t : Bytes) → c ≢ b'\\' → c ≢ b'\t' → line_fields (c ∷ t) ≡ push c (line_fields t)
unfolding line_fields
line_fields-plain c [] h k = rw (==_ne c b'\t' k) refl
line_fields-plain c (d ∷ t) h k = rw (==_ne c b'\\' h, ==_ne c b'\t' k) refl

line_fields-tab : (t : Bytes) → line_fields (b'\t' ∷ t) ≡ [] ∷ line_fields t
unfolding line_fields
line_fields-tab [] = refl
line_fields-tab (d ∷ t) = refl

line_fields-escape :
    (s t : Bytes) → line_fields (escape s ++ t) ≡ push_all (escape s) (line_fields t)
unfolding escape line_fields
line_fields-escape [] t = refl
line_fields-escape (c ∷ s) t = elim (Bool-cases (is_copy_special c)) [
  | inl e ↦ rw (e, line_fields-escape s t) refl
  | inr e ↦
      let (h, k) = ordinary c e in
      rw (e, line_fields-plain c (escape s ++ t) h k, line_fields-escape s t) refl
]

pub line_fields-printed :
    (v : Option Bytes) (t : Bytes)
    → line_fields (printed v ++ t) ≡ push_all (printed v) (line_fields t)
unfolding line_fields
line_fields-printed none t = refl
line_fields-printed (some s) t = line_fields-escape s t

pub line_fields-tabbed :
    (vs : List (Option Bytes)) → line_fields (tabbed (map printed vs)) ≡ [] ∷ map printed vs
unfolding line_fields
line_fields-tabbed [] = refl
line_fields-tabbed (v ∷ vs) =
    rw
      (
        line_fields-tab (printed v ++ tabbed (map printed vs)),
        line_fields-printed v (tabbed (map printed vs)),
        line_fields-tabbed vs,
        push_all_lem (printed v) [] (map printed vs),
        append-nil (printed v),
      )
      refl

unescape_field-plain :
    (c : ℕ) (t : Bytes) → c ≢ b'\\' → unescape_field (c ∷ t) ≡ c ∷ unescape_field t
unfolding unescape_field
unescape_field-plain c [] h = refl
unescape_field-plain c (d ∷ t) h = rw (==_ne c b'\\' h) refl

letter-special : (c : ℕ) → is_copy_special c ≡ true → letter c ≡ c
letter-special c h = elim (special_cases c h) [
  | inl e ↦ rw e refl
  | inr (inl e) ↦ rw e refl
  | inr (inr e) ↦ rw e refl
]

unescape_field-escape : (s : Bytes) → unescape_field (escape s) ≡ s
unfolding unescape_field escape
unescape_field-escape [] = refl
unescape_field-escape (c ∷ s) = elim (Bool-cases (is_copy_special c)) [
  | inl e ↦ rw (e, letter-special c e, unescape_field-escape s) refl
  | inr e ↦
      let (h, k) = ordinary c e in
      rw (e, unescape_field-plain c (escape s) h, unescape_field-escape s) refl
]

is_null-pair : (c : ℕ) (t : Bytes) → is_copy_special c ≡ true → is_null (b'\\' ∷ c ∷ t) ≡ false
is_null-pair c [] h = elim (special_cases c h) [
  | inl e ↦ rw e refl
  | inr (inl e) ↦ rw e refl
  | inr (inr e) ↦ rw e refl
]
is_null-pair c (d ∷ t) h = refl

is_null-plain : (c : ℕ) (t : Bytes) → c ≢ b'\\' → is_null (c ∷ t) ≡ false
is_null-plain c [] h = refl
is_null-plain c (d ∷ []) h = rw (==_ne c b'\\' h) refl
is_null-plain c (d ∷ e ∷ t) h = refl

is_null-escape : (s : Bytes) → is_null (escape s) ≡ false
unfolding escape
is_null-escape [] = refl
is_null-escape (c ∷ s) = elim (Bool-cases (is_copy_special c)) [
  | inl e ↦ rw e (is_null-pair c (escape s) e)
  | inr e ↦ let (h, k) = ordinary c e in rw e (is_null-plain c (escape s) h)
]

pub read_field-printed : (v : Option Bytes) → read_field (printed v) ≡ v
read_field-printed none = refl
read_field-printed (some s) = rw (is_null-escape s, unescape_field-escape s) refl

pub read_fields-printed : (vs : List (Option Bytes)) → map read_field (map printed vs) ≡ vs
read_fields-printed [] = refl
read_fields-printed (v ∷ vs) = rw (read_field-printed v, read_fields-printed vs) refl
