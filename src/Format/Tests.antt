-- ===== src/Format/Tests.antt =====
-- The theorem on the table of a result at a concrete result.
use py_gre_sql.Base.{ℕ, ◌<◌, ◌≢◌, ◌≡◌, arith, pos, some}
use py_gre_sql.Libpq.{out_of_range}
use py_gre_sql.Libpq.Demo.{server, cell_of}
use py_gre_sql.Outcome.{ok}
use py_gre_sql.Format.{
  format_result, layout, row_size, widen_rows, first_widths, widen, first_width,
}
use py_gre_sql.Format.Table.{table, format_result_lem, InRange}

in_range : (i n : ℕ) → i < n → cell_of n (pos i) ≢ out_of_range
in_range i n h = ground arith

two_rows : InRange server 2
two_rows = λ i j h k. in_range i 2 h

format_result_lem_example : format_result server (some 2) ≡ ok (table server 2 (layout server 2))
unfolding row_size layout widen_rows first_widths widen first_width
format_result_lem_example = format_result_lem server 2 two_rows (omega arith) (omega arith)
