-- ===== src/Conn/Insert/Bounds.antt =====
-- The buffer of inserttable is large enough for every row.
use py_gre_sql.Base.{
  ℕ, zero, suc, ◌+◌, ◌<◌, ◌==◌, Bool, true, false, ◌&&◌, List, [], ◌∷◌, ◌++◌, Bytes, Option, none,
  some, length, ◌≡◌, refl, arith, Bool-cases, inl, inr,
}
use py_gre_sql.Settings.{Settings}
use py_gre_sql.Python.{Python}
use py_gre_sql.Convert.{get_encoded_string}
use py_gre_sql.Outcome.{null_access}
use py_gre_sql.Format.{put_byte}
use py_gre_sql.Format.Padding.{put_byte_lem, ltb_lem}
use py_gre_sql.Libpq.{Libpq}
use py_gre_sql.Conn.{
  Return, gives, raises, undefined, unfinished, ◌>>=◌, of_outcome, max_buffer_size,
}
use py_gre_sql.Conn.Insert.{
  Value, none_item, bytes_item, text_item, int_item, other_item, Buffer, copy, put_null,
  insert_value, put_values, put_row, put_item, insert_line, is_copy_special, enough, copy_form,
  copy_encoded,
}
use py_gre_sql.Conn.Insert.Copied.{put_lem, length-snoc}

-- What is written and the room that is counted fit in the buffer. The only undefined step is the
-- use of a text that an object does not have.
abbrev Kept : ℕ → Return Buffer → Type 0
Kept least (gives (out, room)) = (length out + room < max_buffer_size) × (least < suc room)
Kept least (raises e) = Unit
Kept least (undefined f) = f ≡ null_access
Kept least unfinished = ⊥

copy-Kept :
    (escaping : Bool) (s out : Bytes) (room : ℕ)
    → length out + room < max_buffer_size
    → Kept 0 (copy escaping s (out, room))
unfolding copy
copy-Kept escaping [] out room h = (h, omega arith)
copy-Kept escaping (c ∷ s) out zero h = (h, omega arith)
copy-Kept escaping (c ∷ s) out (suc zero) h = elim (Bool-cases (c == 0)) [
  | inl e ↦ rw e (h, omega arith)
  | inr e ↦ elim (Bool-cases (escaping && is_copy_special c)) [
    | inl f ↦
        rw (e, f, put_lem b'\\' out 0 (omega arith))
          (omega (arith, length-snoc b'\\' out), omega arith)
    | inr f ↦
        rw (e, f, put_lem c out 0 (omega arith))
          (copy-Kept escaping s (out ++ (c ∷ [])) 0 (omega (arith, length-snoc c out)))
  ]
]
copy-Kept escaping (c ∷ s) out (suc (suc room)) h = elim (Bool-cases (c == 0)) [
  | inl e ↦ rw e (h, omega arith)
  | inr e ↦ elim (Bool-cases (escaping && is_copy_special c)) [
    | inl f ↦
        rw
          (
            e,
            f,
            put_lem b'\\' out (suc room) (omega arith),
            put_lem c (out ++ (b'\\' ∷ [])) room (omega (arith, length-snoc b'\\' out)),
          )
          (copy-Kept escaping s ((out ++ (b'\\' ∷ [])) ++ (c ∷ [])) room
            (omega (arith, length-snoc b'\\' out, length-snoc c (out ++ (b'\\' ∷ [])))))
    | inr f ↦
        rw (e, f, put_lem c out (suc room) (omega arith))
          (copy-Kept escaping s (out ++ (c ∷ [])) (suc room) (omega (arith, length-snoc c out)))
  ]
]

not_one_lt : 1 < suc zero → ⊥
not_one_lt h = omega arith

put_null-Kept :
    (out : Bytes) (room : ℕ) → length out + room < max_buffer_size → Kept 0 (put_null (out, room))
unfolding put_null
put_null-Kept out zero h = (h, omega arith)
put_null-Kept out (suc zero) h = (omega arith, omega arith)
put_null-Kept out (suc (suc zero)) h = (omega arith, omega arith)
put_null-Kept out (suc (suc (suc room))) h =
    rw
      (
        ltb_lem 2 (suc (suc (suc room))) (omega arith),
        put_lem b'\\' out (suc (suc room)) (omega arith),
        put_lem b'N' (out ++ (b'\\' ∷ [])) (suc room) (omega (arith, length-snoc b'\\' out)),
      )
      (omega (arith, length-snoc b'\\' out, length-snoc b'N' (out ++ (b'\\' ∷ []))), omega arith)

bind-Kept :
    (k l : ℕ) (m : Return Buffer) (f : Buffer → Return Buffer)
    → Kept k m
    → ((out : Bytes) (room : ℕ)
        → length out + room < max_buffer_size
        → k < suc room
        → Kept l (f (out, room)))
    → Kept l (m >>= f)
bind-Kept k l (gives (out, room)) f h next = next out room h.0 h.1
bind-Kept k l (raises e) f h next = tt
bind-Kept k l (undefined u) f h next = h
bind-Kept k l unfinished f h next = h

-- how a line may end
abbrev pub NoOverflow : Return Bytes → Type 0
NoOverflow (gives s) = length s < max_buffer_size
NoOverflow (raises e) = Unit
NoOverflow (undefined f) = f ≡ null_access
NoOverflow unfinished = ⊥

module _ (py : Python) (g : Settings py.Obj) (pq : Libpq) (encoding : ℕ) where
  copy_form-Kept :
      (escaping : Bool) (form : Option Bytes) (out : Bytes) (room : ℕ)
      → length out + room < max_buffer_size
      → Kept 0 (copy_form py g pq escaping form (out, room))
  copy_form-Kept escaping none out room h = refl
  copy_form-Kept escaping (some s) out room h = copy-Kept escaping s out room h

  copy_encoded-Kept :
      (s : Option Bytes) (out : Bytes) (room : ℕ)
      → length out + room < max_buffer_size
      → Kept 0 (copy_encoded py g pq s (out, room))
  copy_encoded-Kept none out room h = tt
  copy_encoded-Kept (some s) out room h = copy-Kept true s out room h

  insert_value-Kept :
      (v : Value py.Obj) (out : Bytes) (room : ℕ)
      → length out + room < max_buffer_size
      → Kept 0 (insert_value py g pq encoding v (out, room))
  unfolding insert_value
  insert_value-Kept none_item out room h = put_null-Kept out room h
  insert_value-Kept (bytes_item s) out room h = copy-Kept true s out room h
  insert_value-Kept (text_item o) out room h =
      copy_encoded-Kept (get_encoded_string py g o encoding) out room h
  insert_value-Kept (int_item o) out room h = copy_form-Kept false (py.str_form o) out room h
  insert_value-Kept (other_item o) out room h = copy_form-Kept true (py.repr_form o) out room h

  enough-Kept :
      (out : Bytes) (room : ℕ)
      → length out + room < max_buffer_size
      → 0 < suc room
      → Kept 1 (enough py g pq (out, room))
  enough-Kept out zero h k = tt
  enough-Kept out (suc room) h k = (h, omega arith)

  put_item-Kept :
      (v : Value py.Obj) (out : Bytes) (room : ℕ)
      → length out + room < max_buffer_size
      → Kept 1 (put_item py g pq encoding v (out, room))
  unfolding put_item
  put_item-Kept v out room h =
      bind-Kept 0 1 (insert_value py g pq encoding v (out, room)) (λ b. enough py g pq b)
        (insert_value-Kept v out room h) enough-Kept

  put_values-Kept :
      (vs : List (Value py.Obj)) (out : Bytes) (room : ℕ)
      → length out + room < max_buffer_size
      → 1 < suc room
      → Kept 1 (put_values py g pq encoding vs (out, room))
  unfolding put_values
  put_values-Kept [] out room h k = (h, k)
  put_values-Kept (v ∷ vs) out zero h k = elim (not_one_lt k) [ ]
  put_values-Kept (v ∷ vs) out (suc room) h k = rw (put_lem b'\t' out room (omega arith)) (
      bind-Kept 1 1 (put_item py g pq encoding v (out ++ (b'\t' ∷ []), room))
        (λ b. put_values py g pq encoding vs b)
        (put_item-Kept v (out ++ (b'\t' ∷ [])) room (omega (arith, length-snoc b'\t' out)))
        (λ out room. put_values-Kept vs out room))

  put_row-Kept : (vs : List (Value py.Obj)) → Kept 1 (put_row py g pq encoding vs ([], 8191))
  put_row-Kept [] = (omega arith, omega arith)
  put_row-Kept (v ∷ vs) =
      bind-Kept 1 1 (put_item py g pq encoding v ([], 8191)) (λ b. put_values py g pq encoding vs b)
        (put_item-Kept v [] 8191 (omega arith)) (λ out room. put_values-Kept vs out room)

  ended-NoOverflow :
      (m : Return Buffer)
      → Kept 1 m
      → NoOverflow (
          m >>= λ filled. of_outcome (put_byte max_buffer_size b'\n' filled.0) >>= λ line.
          of_outcome (put_byte max_buffer_size 0 line) >>= λ ended. gives line)
  ended-NoOverflow (gives (out, room)) h =
      rw
        (
          put_byte_lem max_buffer_size b'\n' out (omega (arith, h.0, h.1)),
          put_byte_lem max_buffer_size 0 (out ++ (b'\n' ∷ []))
              (omega (arith, h.0, h.1, length-snoc b'\n' out)),
        )
        (omega (arith, h.0, h.1, length-snoc b'\n' out))
  ended-NoOverflow (raises e) h = tt
  ended-NoOverflow (undefined u) h = h
  ended-NoOverflow unfinished h = h

  -- Whatever the items of a row are, and however long: building the line of inserttable never writes
  -- outside its buffer of 8192 bytes. It gives a line that fits, or an error; the only step that C
  -- does not define is the use of the text of an object whose str or repr fails.
  pub insert_line-NoOverflow :
      (vs : List (Value py.Obj)) → NoOverflow (insert_line py g pq encoding vs)
  unfolding insert_line
  insert_line-NoOverflow vs =
      ended-NoOverflow (put_row py g pq encoding vs ([], 8191)) (put_row-Kept vs)
