-- ===== src/Source/All.antt =====
-- `fetch` of all rows, and behind the last row.
use py_gre_sql.Base.{
  ℕ, ◌-◌, ◌≤◌, ℤ, pos, negsuc, ◌+ℤ◌, List, [], some, ◌≡◌, refl, sym, ap, ◌∙◌, arith, length,
}
use py_gre_sql.Settings.{Settings}
use py_gre_sql.Python.{Python}
use py_gre_sql.Libpq.{Libpq}
use py_gre_sql.Source.{Source, returned, check_source_obj}
use py_gre_sql.Source.Fetch.{fetch_size, source_fetch, fetch_rows}
use py_gre_sql.Source.Counts.{row_number}
use py_gre_sql.Source.Rows.{Fetchable, Fetchable-result, length-rows, fetch-at}

pub row_number_all : (max_row k : ℕ) → row_number max_row (pos k) (negsuc 0) ≡ max_row - k
unfolding fetch_size
row_number_all max_row k = ground arith

row_number_end : (max_row : ℕ) (size : ℤ) → row_number max_row (pos max_row) size ≡ 0
unfolding fetch_size
row_number_end max_row (pos n) = ground arith
row_number_end max_row (negsuc n) = ground arith

plus_nothing : (k : ℕ) → pos k +ℤ pos 0 ≡ pos k
plus_nothing k = ground arith

pub plus_left : (m k : ℕ) → k ≤ m → pos k +ℤ pos (m - k) ≡ pos m
plus_left m k h = ground arith

module _ (py : Python) (g : Settings py.Obj) (pq : Libpq) where
  -- behind the last row nothing is left
  fetch_end :
      (self : Source pq) (size : ℤ)
      → Fetchable self
      → self.current_row ≡ pos self.max_row
      → source_fetch py g pq self (some (some size)) ≡ (self, returned [])
  unfolding fetch_rows
  fetch_end self size h e =
      let (r, er) = Fetchable-result py g pq self h in
      fetch-at py g pq self r size 0 (pos self.max_row) (pos self.max_row) h er e
        (row_number_end self.max_row size) (plus_nothing self.max_row)
      ∙ ap (λ (i : ℤ). (record self { current_row = i }, returned [])) (sym e)

  -- From a row `k` of the result, `fetch (-1)` returns as many rows as there are from there on, and
  -- leaves a source of which another `fetch`, with any size, returns none.
  pub fetch-all :
      (self : Source pq) (k : ℕ) (size : ℤ)
      → Fetchable self
      → self.current_row ≡ pos k
      → k ≤ self.max_row
      → (l : List py.Obj) × ((self₁ : Source pq) × (source_fetch py g pq self
              (some (some (negsuc 0)))
            ≡ (self₁, returned l))
          × (length l ≡ self.max_row - k)
          × (source_fetch py g pq self₁ (some (some size)) ≡ (self₁, returned [])))
  unfolding check_source_obj
  fetch-all self k size h e le =
      let (r, er) = Fetchable-result py g pq self h in
      let n = self.max_row - k in
      (
        _,
        (
          record self { current_row = pos self.max_row },
          fetch-at py g pq self r (negsuc 0) n (pos k) (pos self.max_row) h er e
              (row_number_all self.max_row k) (plus_left self.max_row k le),
          length-rows py g pq r self.encoding self.num_fields n (pos k),
          fetch_end (record self { current_row = pos self.max_row }) size h refl,
        ),
      )
