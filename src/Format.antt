-- ===== src/Format.antt =====
-- `format_result` of pginternal.c: a result as a table of text, written into one buffer.
pub mod Padding
pub mod Lines
pub mod Widths
pub mod Table
mod Tests
use py_gre_sql.Base.{
  ℕ, zero, suc, ◌+◌, ◌-◌, ◌*◌, ◌/◌, ◌%◌, ◌^◌, pos, leb, ltb, ◌==◌, if◌then◌else◌, List, [], ◌∷◌,
  ◌++◌, map, Bytes, Bool, true, false, Option, none, some, codes, length, replicate, take,
}
use py_gre_sql.Oids.{
  int2_oid, int4_oid, int8_oid, float4_oid, float8_oid, numeric_oid, oid_oid, xid_oid, cid_oid,
  cash_oid,
}
use py_gre_sql.Outcome.{Outcome, ok, fault, buffer_overflow, uninitialised, null_access, ◌>>=◌}
use py_gre_sql.Types.{one_of}
use py_gre_sql.Libpq.{Libpq, Cell, value, get_value, get_is_null}

-- `size_t`
abbrev pub wrap_size : ℕ → ℕ
wrap_size a = a % 2 ^ 64

unfoldable pub sub_size : ℕ → ℕ → ℕ
sub_size a b = if leb b a then a - b else wrap_size (a + 2 ^ 64 - b)

-- `aligns[j]`: 0 for a binary column, else `r` or `l`
pub data Align : Type 0 where
  binary align_right align_left : Align

-- `aligns[j]` and `sizes[j]` with the column's number and its name
pub record Column : Type 0 where
  pub number : ℕ
  pub name : Bytes
  pub align : Align
  pub width : ℕ

abbrev pub align_of : ℕ → Align
align_of ftype =
    if one_of ftype (
      int2_oid ∷ int4_oid ∷ int8_oid ∷ float4_oid ∷ float8_oid ∷ numeric_oid ∷ oid_oid ∷ xid_oid
      ∷ cid_oid ∷ cash_oid ∷ [])
    then align_right
    else align_left

-- where there are rows, "<binary>" must fit
abbrev pub binary_width : ℕ → ℕ → ℕ
binary_width zero width = width
binary_width (suc m) width = if ltb width 8 then 8 else width

-- `if (size < k) size = k;`
abbrev pub at_least : ℕ → ℕ → ℕ
at_least width k = if ltb width k then k else width

-- what `sprintf` writes for "%*s" and "%-*s"
abbrev pub pad_left : ℕ → Bytes → Bytes
pad_left k s = replicate (k - length s) b' ' ++ s

abbrev pub pad_right : ℕ → Bytes → Bytes
pad_right k s = s ++ replicate (k - length s) b' '

-- "%d" of a number with at most as many digits as the fuel
unfoldable pub print_decimal : ℕ → ℕ → Bytes
print_decimal zero m = []
print_decimal (suc fuel) m =
    let rest = print_decimal fuel (m / 10) in
    if ltb m 10 then (b'0' + m) ∷ [] else rest ++ ((b'0' + m % 10) ∷ [])

unfoldable pub row_text : ℕ → Bytes
row_text m = codes " row" ++ (if m == 1 then [] else codes "s") ++ codes ")"

-- "(%d row%s)" for an int, which has at most ten digits
unfoldable pub footer : ℕ → Bytes
footer m = b'(' ∷ (print_decimal 10 m ++ row_text m)

-- `PQgetisnull (...) ? "" : "<binary>"`
abbrev pub binary_text : Bool → Bytes
binary_text true = []
binary_text false = codes "<binary>"

-- "size of one row"
unfoldable pub row_size : List Column → ℕ
row_size [] = 0
row_size (c ∷ cs) = c.width + 1 + row_size cs

-- Writing to a buffer of `size` bytes. The state is the text in front of `p`.
module _ (size : ℕ) where
  -- `*p++ = c;`
  unfoldable pub put_byte : ℕ → Bytes → Outcome Bytes
  put_byte c out = if ltb (length out) size then ok (out ++ (c ∷ [])) else fault buffer_overflow

  -- `sprintf (p, ...); p += k;` for the text `s`, behind which a zero is written
  unfoldable pub put_text : ℕ → Bytes → Bytes → Outcome Bytes
  put_text k s out =
      if ltb (length out + length s) size
      then if ltb (length s) k then fault uninitialised else ok (out ++ take k s)
      else fault buffer_overflow

  unfoldable pub put_dashes : ℕ → Bytes → Outcome Bytes
  put_dashes zero out = ok out
  put_dashes (suc k) out = put_byte b'-' out >>= λ next. put_dashes k next

  -- The loops over the columns, with a mark between two of them.
  unfoldable pub put_columns :
      ℕ → (Column → Bytes → Outcome Bytes) → List Column → Bytes → Outcome Bytes
  put_columns mark put [] out = ok out
  put_columns mark put (c ∷ []) out = put c out
  put_columns mark put (c ∷ d ∷ cs) out =
      put c out >>= λ field. put_byte mark field >>= λ next. put_columns mark put (d ∷ cs) next

  -- the name in the middle of its column
  unfoldable pub put_name : Column → Bytes → Outcome Bytes
  put_name c out =
      let h = sub_size c.width (length c.name) / 2 in
      let k = sub_size c.width h in
      put_text h (pad_left h []) out >>= λ next. put_text k (pad_right k c.name) next

  unfoldable pub put_rule : Column → Bytes → Outcome Bytes
  put_rule c out = put_dashes c.width out

  -- one line
  unfoldable pub put_text_line :
      ℕ → (Column → Bytes → Outcome Bytes) → List Column → Bytes → Outcome Bytes
  put_text_line mark put cs out = put_columns mark put cs out >>= λ line. put_byte b'\n' line

  abbrev pub put_value : (Bytes → Bytes) → ℕ → Option Bytes → Bytes → Outcome Bytes
  put_value pad k none out = fault null_access
  put_value pad k (some s) out = put_text k (pad s) out

  -- one value of a column
  unfoldable pub put_cell : Align → ℕ → Cell → Bytes → Outcome Bytes
  put_cell binary k v out = put_text k (pad_right k (binary_text (get_is_null v))) out
  put_cell align_right k v out = put_value (pad_left k) k (get_value v) out
  put_cell align_left k v out = put_value (pad_right k) k (get_value v) out

-- the size and the alignment of a column with the given format and type, without the values
unfoldable pub first_width : ℕ → ℕ → Bytes → ℕ → ℕ → Column
first_width m j name zero ftype = record {
  number = j;
  name = name;
  align = align_of ftype;
  width = length name;
}
first_width m j name (suc format) ftype = record {
  number = j;
  name = name;
  align = binary;
  width = binary_width m (length name);
}

-- `PQgetlength`
abbrev pub get_length : Cell → ℕ
get_length (value s) = length s
get_length _ = 0

-- a value must fit
abbrev pub widen_by : Align → ℕ → ℕ → ℕ
widen_by binary width k = width
widen_by _ width k = at_least width k

module _ (pq : Libpq) (r : pq.Answer) where
  unfoldable pub first_widths : ℕ → ℕ → ℕ → List Column
  first_widths m zero j = []
  first_widths m (suc n) j =
      first_width m j (pq.fname r j) (pq.fformat r j) (pq.ftype r j) ∷ first_widths m n (suc j)

  unfoldable pub widen : ℕ → Column → Column
  widen i c = record c {
    width = widen_by c.align c.width (get_length (pq.cell r (pos i) c.number));
  }

  -- the values of `m` rows from row `i` on must fit
  unfoldable pub widen_rows : ℕ → ℕ → List Column → List Column
  widen_rows zero i cs = cs
  widen_rows (suc m) i cs = widen_rows m (suc i) (map (widen i) cs)

  unfoldable pub layout : List Column
  layout = let m = pq.ntuples r in widen_rows m 0 (first_widths m (pq.nfields r) 0)

  unfoldable pub buffer_size : List Column → ℕ
  buffer_size cs = wrap_size (wrap_size (row_size cs) * (pq.ntuples r + 2) + 40)

  unfoldable pub put_rows : ℕ → List Column → ℕ → ℕ → Bytes → Outcome Bytes
  put_rows size cs zero i out = ok out
  put_rows size cs (suc m) i out =
      put_text_line size b'|' (λ c. put_cell size c.align c.width (pq.cell r (pos i) c.number)) cs
        out
      >>= λ next. put_rows size cs m (suc i) next

  unfoldable pub put_table : ℕ → List Column → Outcome Bytes
  put_table size cs = do
    head ← put_text_line size b'|' (put_name size) cs []
    rule ← put_text_line size b'+' (put_rule size) cs head
    body ← put_rows size cs (pq.ntuples r) 0 rule
    put_text size (length (footer (pq.ntuples r))) (footer (pq.ntuples r)) body

  unfoldable pub format_answer : Outcome Bytes
  format_answer =
      if pq.nfields r == 0
      then ok (codes "(nothing selected)")
      else put_table (buffer_size layout) layout

-- A null pointer has no fields.
unfoldable pub format_result : (pq : Libpq) → Option pq.Answer → Outcome Bytes
format_result pq none = ok (codes "(nothing selected)")
format_result pq (some r) = format_answer pq r
