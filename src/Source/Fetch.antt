-- ===== src/Source/Fetch.antt =====
-- `source_fetch` and the moves of pgsource.c.
use py_gre_sql.Base.{
  ℕ, zero, suc, ℤ, pos, negsuc, pos_part, ◌-ℤ◌, ltb_ℤ, succ_ℤ, is_minus_one, ◌||◌, List, [], ◌∷◌,
  Option, none, some, ◌==◌, if◌then◌else◌, ◌+◌,
}
use py_gre_sql.Settings.{Settings}
use py_gre_sql.Python.{Python}
use py_gre_sql.Convert.{text_or_bytes}
use py_gre_sql.Libpq.{Libpq, Cell, out_of_range, null_value, value}
use py_gre_sql.Source.{
  Source, Reply, returned, raised, null_pointer, argument_expected, check_cnx, check_result,
  check_dql, checked,
}

-- the limit that `fetch` puts on its size: the rows that are left for -1 or a larger size
unfoldable pub fetch_size : ℕ → ℤ → ℤ → ℤ
fetch_size max_row current_row size =
    let left = pos max_row -ℤ current_row in
    if is_minus_one size || ltb_ℤ left size then left else size

module _ (py : Python) (g : Settings py.Obj) (pq : Libpq) where
  -- one value: None, or in textual format the decoded text, and else bytes
  -- A text that cannot be decoded comes as bytes while the exception of the decoder is not cleared.
  unfoldable pub fetch_value : pq.Answer → ℕ → ℕ → Cell → py.Obj
  fetch_value r encoding j out_of_range = py.none_obj
  fetch_value r encoding j null_value = py.none_obj
  fetch_value r encoding j (value s) =
      if pq.fformat r j == 0 then text_or_bytes py g s encoding else py.bytes_of s

  -- the columns from `j` on
  unfoldable pub fetch_columns : pq.Answer → ℕ → ℤ → ℕ → ℕ → List py.Obj
  fetch_columns r encoding k zero j = []
  fetch_columns r encoding k (suc n) j =
      fetch_value r encoding j (pq.cell r k j) ∷ fetch_columns r encoding k n (suc j)

  unfoldable pub fetch_row : pq.Answer → ℕ → ℕ → ℤ → py.Obj
  fetch_row r encoding num_fields k = py.tuple_of (fetch_columns r encoding k num_fields 0)

  -- the loop: the rows, and where `k` ends
  unfoldable pub fetch_rows : pq.Answer → ℕ → ℕ → ℕ → ℤ → List py.Obj × ℤ
  fetch_rows r encoding num_fields zero k = ([], k)
  fetch_rows r encoding num_fields (suc n) k =
      let rest = fetch_rows r encoding num_fields n (succ_ℤ k) in
      (fetch_row r encoding num_fields k ∷ rest.0, rest.1)

  -- behind the check, which has found a result
  abbrev pub fetch_from : Source pq → ℤ → Option pq.Answer → Source pq × Reply (List py.Obj)
  fetch_from self size none = (self, null_pointer)
  fetch_from self size (some r) =
      let rows =
        fetch_rows r self.encoding self.num_fields
          (pos_part (fetch_size self.max_row self.current_row size)) self.current_row in
      (record self { current_row = rows.1 }, returned rows.0)

  -- the argument of `fetch`: none, an int, or another
  abbrev pub size_given : Source pq → Option (Option ℤ) → Option ℤ
  size_given self none = none
  size_given self (some none) = some self.arraysize
  size_given self (some (some n)) = some n

  abbrev pub fetch_given : Source pq → Option ℤ → Source pq × Reply (List py.Obj)
  fetch_given self none = (self, raised argument_expected)
  fetch_given self (some size) = fetch_from self size self.result

  -- The flags are different bits, so their sum is their `|`.
  unfoldable pub source_fetch : Source pq → Option (Option ℤ) → Source pq × Reply (List py.Obj)
  source_fetch self args =
      checked self (check_result + check_dql + check_cnx) (fetch_given self (size_given self args))

pub data Direction : Type 0 where
  move_first move_last move_next move_prev : Direction

-- the row behind a move
unfoldable pub moved_row : Direction → ℕ → ℤ → ℤ
moved_row move_first max_row k = pos 0
moved_row move_last max_row k = pos max_row -ℤ pos 1
moved_row move_next max_row (pos k) = if k == max_row then pos k else pos (suc k)
moved_row move_next max_row (negsuc k) = succ_ℤ (negsuc k)
moved_row move_prev max_row (pos (suc k)) = pos k
moved_row move_prev max_row k = k

-- `_source_move`
unfoldable pub source_move : {pq : Libpq} → Direction → Source pq → Source pq × Reply Unit
source_move move self =
    checked self (check_result + check_dql)
      (record self { current_row = moved_row move self.max_row self.current_row }, returned tt)
