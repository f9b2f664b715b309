-- ===== src/Format/Table.antt =====
-- The table that `format_result` gives.
use py_gre_sql.Base.{
  ℕ, zero, suc, ◌+◌, ◌*◌, ◌^◌, ◌<◌, ◌≤◌, pos, List, [], ◌∷◌, ◌++◌, Bytes, length, replicate, some,
  length-append, append_assoc, append-nil, ◌≡◌, ◌≢◌, refl, arith, ==_ne,
}
use py_gre_sql.Types.Laws.{All}
use py_gre_sql.Libpq.{Libpq, out_of_range}
use py_gre_sql.Outcome.{ok}
use py_gre_sql.Format.{
  Column, put_cell, put_name, put_rule, put_rows, put_table, row_size, layout, footer,
  format_answer, format_result, buffer_size, wrap_size,
}
use py_gre_sql.Format.Padding.{put_text_lem, length-footer}
use py_gre_sql.Format.Lines.{
  line, centred, cell_text, Writes, put_name-Writes, put_rule-Writes, put_cell-Writes, put_line_lem,
  length-line,
}
use py_gre_sql.Format.Widths.{Fitted, layout-Fitted, length-layout}

wrap_size_lem : (a : ℕ) → a < 2 ^ 64 → wrap_size a ≡ a
wrap_size_lem a h = omega arith

not_lt_zero : (n : ℕ) → n < 0 → ⊥
not_lt_zero n h = omega arith

mul_suc : (a b : ℕ) → a * suc b ≡ a + a * b
mul_suc a b = grind arith

mul_zero : (a : ℕ) → a * 0 ≡ 0
mul_zero a = omega arith

mul_add : (a b : ℕ) → a * (b + 2) ≡ a * b + a + a
mul_add a b = grind arith

module _ (pq : Libpq) (r : pq.Answer) where
  -- `PQgetvalue` is no null pointer for the rows and columns of the result.
  abbrev pub InRange : Type 0
  InRange = (i j : ℕ) → i < pq.ntuples r → j < pq.nfields r → pq.cell r (pos i) j ≢ out_of_range

  abbrev pub name_line : List Column → Bytes
  name_line cs = line b'|' (λ c. centred c.width c.name) cs

  abbrev pub rule_line : List Column → Bytes
  rule_line cs = line b'+' (λ c. replicate c.width b'-') cs

  abbrev pub row_line : ℕ → List Column → Bytes
  row_line i cs = line b'|' (λ c. cell_text c.align c.width (pq.cell r (pos i) c.number)) cs

  -- `m` rows from row `i` on
  unfoldable pub row_lines : ℕ → ℕ → List Column → Bytes
  row_lines zero i cs = []
  row_lines (suc m) i cs = row_line i cs ++ row_lines m (suc i) cs

  -- the whole table: the names, a rule, the rows, and how many rows there are
  unfoldable pub table : List Column → Bytes
  table cs = name_line cs ++ rule_line cs ++ row_lines (pq.ntuples r) 0 cs ++ footer (pq.ntuples r)

  map-All :
      {P Q : Column → Type 0} (cs : List Column) → ((c : Column) → P c → Q c) → All P cs → All Q cs
  map-All [] f h = tt
  map-All (c ∷ cs) f h = (f c h.0, map-All cs f h.1)

  abbrev AllFitted : List Column → Type 0
  AllFitted cs = All (Fitted pq r (pq.ntuples r)) cs

  module _ (size : ℕ) (range : InRange) (c : Column) (cs : List Column)
      (fitted : AllFitted (c ∷ cs)) where
    abbrev row : ℕ
    row = row_size (c ∷ cs)

    names : All (Writes size (put_name size) (λ c. centred c.width c.name)) (c ∷ cs)
    names = map-All (c ∷ cs) (λ c h. put_name-Writes size c h.0) fitted

    rules : All (Writes size (put_rule size) (λ c. replicate c.width b'-')) (c ∷ cs)
    rules = map-All (c ∷ cs) (λ c h. put_rule-Writes size c) fitted

    cells :
        (i : ℕ)
        → i < pq.ntuples r
        → All
            (Writes size
              (λ c. put_cell size c.align c.width (pq.cell r (pos i) c.number))
              (λ c. cell_text c.align c.width (pq.cell r (pos i) c.number)))
            (c ∷ cs)
    cells i k =
        map-All (c ∷ cs)
          (λ c h.
            put_cell-Writes size c.align c.width (pq.cell r (pos i) c.number)
              (range i c.number k h.1) (h.3 i k))
          fitted

    put_rows_lem :
        (m i : ℕ) (out : Bytes)
        → m + i ≡ pq.ntuples r
        → length out + row * m ≤ size
        → put_rows pq r size (c ∷ cs) m i out ≡ ok (out ++ row_lines m i (c ∷ cs))
    unfolding put_rows row_lines
    put_rows_lem zero i out e h = rw (append-nil out) refl
    put_rows_lem (suc m) i out e h =
        let k = cells i (omega arith) in
        let fields = λ (c : Column). cell_text c.align c.width (pq.cell r (pos i) c.number) in
        let put = λ (c : Column). put_cell size c.align c.width (pq.cell r (pos i) c.number) in
        rw
          (
            put_line_lem size b'|' put fields c cs out k (omega (arith, mul_suc row m)),
            put_rows_lem m (suc i) (out ++ row_line i (c ∷ cs)) (omega arith) (
                omega (
                  arith,
                  mul_suc row m,
                  length-append out (row_line i (c ∷ cs)),
                  length-line size b'|' put fields c cs k,
                )),
            append_assoc out (row_line i (c ∷ cs)) (row_lines m (suc i) (c ∷ cs)),
          )
          refl

    length-row_lines : (m i : ℕ) → m + i ≡ pq.ntuples r → length (row_lines m i (c ∷ cs)) ≡ row * m
    unfolding row_lines
    length-row_lines zero i e = omega (arith, mul_zero row)
    length-row_lines (suc m) i e =
        let fields = λ (c : Column). cell_text c.align c.width (pq.cell r (pos i) c.number) in
        let put = λ (c : Column). put_cell size c.align c.width (pq.cell r (pos i) c.number) in
        omega (
          arith,
          mul_suc row m,
          length-append (row_line i (c ∷ cs)) (row_lines m (suc i) (c ∷ cs)),
          length-line size b'|' put fields c cs (cells i (omega arith)),
          length-row_lines m (suc i) (omega arith),
        )

    pub put_table_lem :
        row * (pq.ntuples r + 2) + 40 ≤ size → put_table pq r size (c ∷ cs) ≡ ok (table (c ∷ cs))
    unfolding put_table table
    put_table_lem h =
        let m = pq.ntuples r in
        let one = name_line (c ∷ cs) in
        let two = rule_line (c ∷ cs) in
        let rows = row_lines m 0 (c ∷ cs) in
        let length_one =
          length-line size b'|' (put_name size) (λ c. centred c.width c.name) c cs names in
        let length_two =
          length-line size b'+' (put_rule size) (λ c. replicate c.width b'-') c cs rules in
        let length_rows = length-row_lines m 0 (omega arith) in
        let sum = length-append one two in
        let total = length-append (one ++ two) rows in
        rw
          (
            put_line_lem size b'|' (put_name size) (λ c. centred c.width c.name) c cs [] names
                (omega (arith, mul_add row m)),
            put_line_lem size b'+' (put_rule size) (λ c. replicate c.width b'-') c cs one rules
                (omega (arith, mul_add row m, length_one)),
            put_rows_lem m 0 (one ++ two) (omega arith)
                (omega (arith, mul_add row m, length_one, length_two, sum)),
            put_text_lem size (length (footer m)) (footer m) ((one ++ two) ++ rows) refl (
                omega (
                  arith,
                  mul_add row m,
                  length_one,
                  length_two,
                  length_rows,
                  sum,
                  total,
                  length-footer m,
                )),
            append_assoc (one ++ two) rows (footer m),
            append_assoc one two (rows ++ footer m),
          )
          refl

  put_all_lem :
      (size : ℕ) (cs : List Column)
      → InRange
      → 0 < length cs
      → AllFitted cs
      → row_size cs * (pq.ntuples r + 2) + 40 ≤ size
      → put_table pq r size cs ≡ ok (table cs)
  put_all_lem size [] range h fitted room = elim (not_lt_zero 0 h) [ ]
  put_all_lem size (c ∷ cs) range h fitted room = put_table_lem size range c cs fitted room

  buffer_size_lem :
      (cs : List Column)
      → row_size cs * (pq.ntuples r + 2) + 40 < 2 ^ 64
      → buffer_size pq r cs ≡ row_size cs * (pq.ntuples r + 2) + 40
  unfolding buffer_size
  buffer_size_lem cs h =
      rw (wrap_size_lem (row_size cs) (omega (arith, mul_add (row_size cs) (pq.ntuples r))))
        (wrap_size_lem (row_size cs * (pq.ntuples r + 2) + 40) h)

  format_answer_lem :
      InRange
      → 0 < pq.nfields r
      → row_size (layout pq r) * (pq.ntuples r + 2) + 40 < 2 ^ 64
      → format_answer pq r ≡ ok (table (layout pq r))
  unfolding format_answer
  format_answer_lem range h k =
      let size = buffer_size_lem (layout pq r) k in
      rw
        (
          ==_ne (pq.nfields r) 0 (omega arith),
          put_all_lem (buffer_size pq r (layout pq r)) (layout pq r) range
              (omega (arith, length-layout pq r)) (layout-Fitted pq r) (omega (arith, size)),
        )
        refl

-- For a result with at least one field, whose values libpq gives for all its rows and fields, and
-- where the size of the buffer does not exceed size_t, formatting the result never writes behind
-- the buffer that it allocates and gives the table: the line of names, each in the middle of its
-- column, the rule, one line for each row with its values to the right or the left, and the number
-- of rows.
pub format_result_lem :
    (pq : Libpq) (r : pq.Answer)
    → InRange pq r
    → 0 < pq.nfields r
    → row_size (layout pq r) * (pq.ntuples r + 2) + 40 < 2 ^ 64
    → format_result pq (some r) ≡ ok (table pq r (layout pq r))
unfolding format_result
format_result_lem pq r range h k = format_answer_lem pq r range h k
