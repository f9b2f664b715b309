-- ===== src/Format/Lines.antt =====
-- The lines of the table of `format_result`: what one field, one line and all rows add to the text.
use py_gre_sql.Base.{
  ℕ, ◌+◌, ◌-◌, ◌/◌, ◌≤◌, ◌<◌, List, [], ◌∷◌, ◌++◌, map, Bytes, length, replicate, length-append,
  length-replicate, append_assoc, ◌≡◌, ◌≢◌, refl, arith, Option, none, some, codes,
}
use py_gre_sql.Types.Laws.{All}
use py_gre_sql.Libpq.{Cell, out_of_range, null_value, value, get_value, get_is_null}
use py_gre_sql.Outcome.{Outcome, ok}
use py_gre_sql.Format.{
  Column, Align, binary, align_right, align_left, put_text, put_columns, put_text_line, put_name,
  put_rule, put_cell, pad_left, pad_right, row_size, get_length, binary_text, sub_size,
}
use py_gre_sql.Format.Padding.{
  put_byte_lem, put_text_lem, put_dashes_lem, length-pad_left, length-pad_right,
}

-- the texts with a mark between two of them
unfoldable pub joined : ℕ → List Bytes → Bytes
joined mark [] = []
joined mark (x ∷ []) = x
joined mark (x ∷ y ∷ xs) = x ++ mark ∷ joined mark (y ∷ xs)

unfoldable pub line : ℕ → (Column → Bytes) → List Column → Bytes
line mark f cs = joined mark (map f cs) ++ (b'\n' ∷ [])

-- half of the room in front of the text
unfoldable pub centred : ℕ → Bytes → Bytes
centred k s = let h = (k - length s) / 2 in pad_left h [] ++ pad_right (k - h) s

abbrev padded : (Bytes → Bytes) → Option Bytes → Bytes
padded pad none = []
padded pad (some s) = pad s

-- a value in its column
unfoldable pub cell_text : Align → ℕ → Cell → Bytes
cell_text binary k v = pad_right k (binary_text (get_is_null v))
cell_text align_right k v = padded (pad_left k) (get_value v)
cell_text align_left k v = padded (pad_right k) (get_value v)

-- With room for the column, `put` adds the text `f`, which is as wide as the column.
abbrev pub Writes : ℕ → (Column → Bytes → Outcome Bytes) → (Column → Bytes) → Column → Type 0
Writes size put f c =
    (length (f c) ≡ c.width)
    × ((out : Bytes) → length out + c.width < size → put c out ≡ ok (out ++ f c))

module _ (size mark : ℕ) (put : Column → Bytes → Outcome Bytes) (f : Column → Bytes) where
  length-joined :
      (c : Column) (cs : List Column)
      → All (Writes size put f) (c ∷ cs)
      → length (joined mark (map f (c ∷ cs))) + 1 ≡ row_size (c ∷ cs)
  unfolding joined row_size
  length-joined c [] h = omega (arith, h.0.0)
  length-joined c (d ∷ cs) h = omega (
    arith,
    h.0.0,
    length-joined d cs h.1,
    length-append (f c) (mark ∷ joined mark (map f (d ∷ cs))),
  )

  put_columns_lem :
      (c : Column) (cs : List Column) (out : Bytes)
      → All (Writes size put f) (c ∷ cs)
      → length out + row_size (c ∷ cs) ≤ size
      → put_columns size mark put (c ∷ cs) out ≡ ok (out ++ joined mark (map f (c ∷ cs)))
  unfolding put_columns joined row_size
  put_columns_lem c [] out h k = h.0.1 out (omega arith)
  put_columns_lem c (d ∷ cs) out h k =
      let e = length-append out (f c) in
      let e2 = length-append (out ++ f c) (mark ∷ []) in
      rw
        (
          h.0.1 out (omega arith),
          put_byte_lem size mark (out ++ f c) (omega (arith, e, h.0.0)),
          put_columns_lem d cs ((out ++ f c) ++ (mark ∷ [])) h.1 (omega (arith, e, e2, h.0.0)),
          append_assoc (out ++ f c) (mark ∷ []) (joined mark (map f (d ∷ cs))),
          append_assoc out (f c) (mark ∷ joined mark (map f (d ∷ cs))),
        )
        refl

  pub length-line :
      (c : Column) (cs : List Column)
      → All (Writes size put f) (c ∷ cs)
      → length (line mark f (c ∷ cs)) ≡ row_size (c ∷ cs)
  unfolding line
  length-line c cs h =
      omega (arith, length-append (joined mark (map f (c ∷ cs))) (b'\n' ∷ []), length-joined c cs h)

  pub put_line_lem :
      (c : Column) (cs : List Column) (out : Bytes)
      → All (Writes size put f) (c ∷ cs)
      → length out + row_size (c ∷ cs) ≤ size
      → put_text_line size mark put (c ∷ cs) out ≡ ok (out ++ line mark f (c ∷ cs))
  unfolding put_text_line line
  put_line_lem c cs out h k =
      let text = joined mark (map f (c ∷ cs)) in
      rw
        (
          put_columns_lem c cs out h k,
          put_byte_lem size b'\n' (out ++ text)
              (omega (arith, length-append out text, length-joined c cs h)),
          append_assoc out text (b'\n' ∷ []),
        )
        refl

sub_size_lem : (a b : ℕ) → b ≤ a → sub_size a b ≡ a - b
unfolding sub_size
sub_size_lem a b h = ground arith

-- a text of the column's width, written at once
text_written :
    (size k : ℕ) (s : Bytes)
    → length s ≡ k
    → (length s ≡ k)
      × ((out : Bytes) → length out + k < size → put_text size k s out ≡ ok (out ++ s))
text_written size k s h = (h, λ out room. put_text_lem size k s out h room)

pub put_name-Writes :
    (size : ℕ) (c : Column)
    → length c.name ≤ c.width
    → Writes size (put_name size) (λ c. centred c.width c.name) c
unfolding put_name centred
put_name-Writes size c h =
    let half = (c.width - length c.name) / 2 in
    let left = length-pad_left half [] (omega arith) in
    let right = length-pad_right (c.width - half) c.name (omega arith) in
    (
      omega (
        arith,
        left,
        right,
        length-append (pad_left half []) (pad_right (c.width - half) c.name),
      ),
      λ out room.
          rw
            (
              sub_size_lem c.width (length c.name) h,
              sub_size_lem c.width half (omega arith),
              put_text_lem size half (pad_left half []) out left (omega arith),
              put_text_lem size (c.width - half) (pad_right (c.width - half) c.name)
                  (out ++ pad_left half []) right
                  (omega (arith, left, length-append out (pad_left half []))),
              append_assoc out (pad_left half []) (pad_right (c.width - half) c.name),
            )
            refl,
    )

pub put_rule-Writes :
    (size : ℕ) (c : Column) → Writes size (put_rule size) (λ c. replicate c.width b'-') c
unfolding put_rule
put_rule-Writes size c =
    (length-replicate c.width b'-', λ out k. put_dashes_lem size c.width out (omega arith))

-- the width that `put_cell` needs
abbrev pub Fits : Align → ℕ → Cell → Type 0
Fits binary k v = 8 ≤ k
Fits _ k v = get_length v ≤ k

pub put_cell-Writes :
    (size : ℕ) (a : Align) (k : ℕ) (v : Cell)
    → v ≢ out_of_range
    → Fits a k v
    → (length (cell_text a k v) ≡ k)
      × ((out : Bytes)
          → length out + k < size
          → put_cell size a k v out ≡ ok (out ++ cell_text a k v))
unfolding put_cell cell_text
put_cell-Writes size a k out_of_range r h = elim (r refl) [ ]
put_cell-Writes size binary k null_value r h =
    text_written size k (pad_right k []) (length-pad_right k [] (omega arith))
put_cell-Writes size binary k (value s) r h =
    text_written size k (pad_right k (codes "<binary>"))
      (length-pad_right k (codes "<binary>") (omega arith))
put_cell-Writes size align_right k null_value r h =
    text_written size k (pad_left k []) (length-pad_left k [] (omega arith))
put_cell-Writes size align_right k (value s) r h =
    text_written size k (pad_left k s) (length-pad_left k s (omega arith))
put_cell-Writes size align_left k null_value r h =
    text_written size k (pad_right k []) (length-pad_right k [] (omega arith))
put_cell-Writes size align_left k (value s) r h =
    text_written size k (pad_right k s) (length-pad_right k s (omega arith))
