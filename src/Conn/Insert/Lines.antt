-- ===== src/Conn/Insert/Lines.antt =====
-- The lines that inserttable sends: they tell the server the values of the row, and the buffer is
-- large enough for all that is written to it.
use py_gre_sql.Base.{
  if◌then◌else◌, ℕ, zero, suc, ◌+◌, ◌<◌, List, [], ◌∷◌, ◌++◌, map, Bytes, Option, none, some,
  length, length-append, ◌≡◌, refl, ap, arith, append_assoc, append-nil,
}
use py_gre_sql.Settings.{Settings}
use py_gre_sql.Python.{Python}
use py_gre_sql.Convert.{get_encoded_string}
use py_gre_sql.Format.Padding.{put_byte_lem}
use py_gre_sql.Libpq.{Libpq}
use py_gre_sql.Conn.{gives, max_buffer_size}
use py_gre_sql.Conn.Insert.{
  Value, none_item, bytes_item, text_item, int_item, other_item, insert_value, put_values, put_item,
  put_row, insert_line, enough,
}
use py_gre_sql.Conn.Insert.Copied.{
  NoZero, put_lem, Left, length-snoc, not_lt_zero, copy_escaped, copy_unescaped, put_null_lem,
}
use py_gre_sql.Conn.Insert.Text.{escape, printed, tabbed, print_line, read_line}
use py_gre_sql.Conn.Insert.Reading.{any_return, read_line-print_line}

module _ (py : Python) (g : Settings py.Obj) (pq : Libpq) (encoding : ℕ) where
  -- What an item tells the server: NULL, or the text of its bytes, its encoding or its printed form,
  -- which is a C string. The printed form of an int has no special bytes.
  pub data Tells : Value py.Obj → Option Bytes → Type 0 where
    null_told : Tells none_item none
    bytes_told : (s : Bytes) → NoZero s → Tells (bytes_item s) (some s)
    text_told :
        (o : py.Obj) (s : Bytes)
        → get_encoded_string py g o encoding ≡ some s
        → NoZero s
        → Tells (text_item o) (some s)
    int_told :
        (o : py.Obj) (s : Bytes)
        → py.str_form o ≡ some s
        → NoZero s
        → escape s ≡ s
        → Tells (int_item o) (some s)
    other_told :
        (o : py.Obj) (s : Bytes)
        → py.repr_form o ≡ some s
        → NoZero s
        → Tells (other_item o) (some s)

  put_value_lem :
      (v : Value py.Obj) (t : Option Bytes) (out : Bytes) (room : ℕ)
      → Tells v t
      → length out + room < max_buffer_size
      → length (printed t) < room
      → Left (insert_value py g pq encoding v (out, room)) out (printed t) room
  unfolding insert_value
  put_value_lem v t out room null_told h k = put_null_lem out room h (omega arith)
  put_value_lem v t out room (bytes_told s z) h k = copy_escaped s out room z h k
  put_value_lem v t out room (text_told o s e z) h k = rw e (copy_escaped s out room z h k)
  put_value_lem v t out room (int_told o s e z f) h k =
      rw (e, f) (copy_unescaped s out room z h (omega (arith, ap length f)))
  put_value_lem v t out room (other_told o s e z) h k = rw e (copy_escaped s out room z h k)

  abbrev pub TellsAll : List (Value py.Obj) → List (Option Bytes) → Type 0
  TellsAll [] [] = Unit
  TellsAll (v ∷ vs) (t ∷ ts) = Tells v t × TellsAll vs ts
  TellsAll _ _ = ⊥

  enough_lem : (out : Bytes) (room : ℕ) → 0 < room → enough py g pq (out, room) ≡ gives (out, room)
  enough_lem out zero h = elim (not_lt_zero 0 h) [ ]
  enough_lem out (suc room) h = refl

  -- an item, and the check behind it
  put_checked :
      (v : Value py.Obj) (t : Option Bytes) (out : Bytes) (room : ℕ)
      → Tells v t
      → length out + room < max_buffer_size
      → length (printed t) < room
      → Left (put_item py g pq encoding v (out, room)) out (printed t) room
  unfolding put_item
  put_checked v t out room h k l =
      let (left, r) = put_value_lem v t out room h k l in
      (left, (rw (r.0, enough_lem (out ++ printed t) left (omega (arith, r.1))) refl, r.1))

  -- a tab, an item and the items behind it
  Left-items :
      (v : Value py.Obj) (vs : List (Value py.Obj)) (x : Bytes) (xs : Bytes) (out : Bytes)
      (room : ℕ)
      → length out < max_buffer_size
      → (first : Left
          (put_item py g pq encoding v (out ++ (b'\t' ∷ []), room))
          (out ++ (b'\t' ∷ []))
          x
          room)
      → Left
          (put_values py g pq encoding vs ((out ++ (b'\t' ∷ [])) ++ x, first.0))
          ((out ++ (b'\t' ∷ [])) ++ x)
          xs
          first.0
      → Left (put_values py g pq encoding (v ∷ vs) (out, suc room)) out (b'\t' ∷ x ++ xs) (suc room)
  unfolding put_values
  Left-items v vs x xs out room h (left, r) (last, q) = (
    last,
    (
      rw
          (
            put_lem b'\t' out room h,
            r.0,
            q.0,
            append_assoc (out ++ (b'\t' ∷ [])) x xs,
            append_assoc out (b'\t' ∷ []) (x ++ xs),
          )
          refl,
      omega (arith, r.1, q.1, length-append x xs),
    ),
  )

  put_values_lem :
      (vs : List (Value py.Obj)) (ts : List (Option Bytes)) (out : Bytes) (room : ℕ)
      → TellsAll vs ts
      → length out + room < max_buffer_size
      → length (tabbed (map printed ts)) < room
      → Left (put_values py g pq encoding vs (out, room)) out (tabbed (map printed ts)) room
  unfolding put_values
  put_values_lem [] [] out room h k l = (room, (rw (append-nil out) refl, omega arith))
  put_values_lem [] (t ∷ ts) out room h k l = elim h [ ]
  put_values_lem (v ∷ vs) [] out room h k l = elim h [ ]
  put_values_lem (v ∷ vs) (t ∷ ts) out zero h k l =
      elim (not_lt_zero (length (tabbed (map printed (t ∷ ts)))) l) [ ]
  put_values_lem (v ∷ vs) (t ∷ ts) out (suc room) h k l =
      let sum = length-append (printed t) (tabbed (map printed ts)) in
      let tab = length-snoc b'\t' out in
      let first =
        put_checked v t (out ++ (b'\t' ∷ [])) room h.0 (omega (arith, tab)) (omega (arith, sum)) in
      Left-items v vs (printed t) (tabbed (map printed ts)) out room (omega arith) first (
        put_values_lem vs ts ((out ++ (b'\t' ∷ [])) ++ printed t) first.0 h.1
          (omega (arith, first.1.1, tab, length-append (out ++ (b'\t' ∷ [])) (printed t)))
          (omega (arith, first.1.1, sum)))

  put_row_lem :
      (v : Value py.Obj) (vs : List (Value py.Obj)) (t : Option Bytes) (ts : List (Option Bytes))
      → Tells v t
      → TellsAll vs ts
      → length (print_line (t ∷ ts)) < 8191
      → (left : ℕ) × (put_row py g pq encoding (v ∷ vs) ([], 8191)
          ≡ gives (print_line (t ∷ ts), left))
  put_row_lem v vs t ts h hs k =
      let sum = length-append (printed t) (tabbed (map printed ts)) in
      let (left, r) = put_checked v t [] 8191 h (omega arith) (omega (arith, sum)) in
      let (last, q) =
        put_values_lem vs ts (printed t) left hs (omega (arith, r.1)) (omega (arith, r.1, sum)) in
      (last, rw (r.0, q.0) refl)

  -- For a row of items that tell the server values: if its line, without the newline, is shorter
  -- than 8191 bytes, inserttable sends that line. If no value has a carriage return, a server that
  -- reads it by the rules of COPY gets these values: NULL for None, and the same bytes for a text,
  -- whatever tabs, newlines and backslashes are in it. If one has, the server does not take the
  -- text for one line, since inserttable puts no backslash in front of a carriage return.
  pub insert_line-read_line :
      (v : Value py.Obj) (vs : List (Value py.Obj)) (t : Option Bytes) (ts : List (Option Bytes))
      → Tells v t
      → TellsAll vs ts
      → length (print_line (t ∷ ts)) < 8191
      → (line : Bytes) × ((insert_line py g pq encoding (v ∷ vs) ≡ gives (line ++ (b'\n' ∷ [])))
          × (read_line line ≡ (if any_return (t ∷ ts) then none else some (t ∷ ts))))
  unfolding insert_line
  insert_line-read_line v vs t ts h hs k =
      let line = print_line (t ∷ ts) in
      let (left, r) = put_row_lem v vs t ts h hs k in
      (
        line,
        (
          rw
              (
                r,
                put_byte_lem max_buffer_size b'\n' line (omega arith),
                put_byte_lem max_buffer_size 0 (line ++ (b'\n' ∷ []))
                    (omega (arith, length-snoc b'\n' line)),
              )
              refl,
          read_line-print_line t ts,
        ),
      )
