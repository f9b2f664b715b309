-- ===== src/Source/Ends.antt =====
-- The methods at the ends of a result: the last row, no rows, and behind the last row.
use py_gre_sql.Base.{
  ℕ, zero, suc, ◌+◌, ◌-◌, ◌<◌, ◌≤◌, List, ℤ, pos, negsuc, ◌+ℤ◌, leb, [], ◌∷◌, replicate, none, some,
  ◌≡◌, refl, ap, ◌∙◌, arith, false,
}
use py_gre_sql.Settings.{Settings}
use py_gre_sql.Python.{Python}
use py_gre_sql.Libpq.{Libpq, out_of_range, get_value}
use py_gre_sql.Source.{Source, returned, null_pointer, check_result, check_dql, check_source_obj}
use py_gre_sql.Source.Fetch.{
  fetch_size, fetch_value, fetch_columns, fetch_row, fetch_rows, source_fetch, move_last, moved_row,
  source_move,
}
use py_gre_sql.Source.Fields.{int_desc, field_number, field_in, text_from, source_field}
use py_gre_sql.Source.Checks.{checked-none}
use py_gre_sql.Source.Counts.{row_number}
use py_gre_sql.Source.Rows.{Fetchable, fetch-at}
use py_gre_sql.Source.All.{row_number_all, plus_left}

-- the checks of the moves and of `field` pass
abbrev pub Movable : {pq : Libpq} → Source pq → Type 0
Movable self = check_source_obj self (check_result + check_dql) ≡ none

pub Fetchable-Movable : {pq : Libpq} (self : Source pq) → Fetchable self → Movable self
unfolding check_source_obj
Fetchable-Movable self h = ground arith

last_row_empty : (m : ℕ) (k : ℤ) → m ≡ 0 → moved_row move_last m k ≡ negsuc 0
unfolding moved_row
last_row_empty m k e = ground arith

last_row : (m n : ℕ) (k : ℤ) → m ≡ suc n → moved_row move_last m k ≡ pos n
unfolding moved_row
last_row m n k e = ground arith

row_number_before : (m : ℕ) → m ≡ 0 → row_number m (negsuc 0) (negsuc 0) ≡ 1
unfolding fetch_size
row_number_before m e = ground arith

row_number_last : (m n : ℕ) → m ≡ suc n → row_number m (pos n) (pos 1) ≡ 1
unfolding fetch_size
row_number_last m n e = ground arith

plus_one : (m n : ℕ) → m ≡ suc n → pos n +ℤ pos 1 ≡ pos m
plus_one m n e = ground arith

not_above : (n j : ℕ) → j < n → leb n j ≡ false
not_above n j h = ground arith

module _ (py : Python) (g : Settings py.Obj) (pq : Libpq) where
  columns_out_of_range :
      (r : pq.Answer) (encoding : ℕ) (k : ℤ) (n j : ℕ)
      → ((i : ℕ) → pq.cell r k i ≡ out_of_range)
      → fetch_columns py g pq r encoding k n j ≡ replicate n py.none_obj
  unfolding fetch_columns fetch_value
  columns_out_of_range r encoding k zero j h = refl
  columns_out_of_range r encoding k (suc n) j h =
      rw (h j) (ap (◌∷◌ py.none_obj) (columns_out_of_range r encoding k n (suc j) h))

  move-at :
      (self : Source pq) (k : ℤ)
      → Fetchable self
      → moved_row move_last self.max_row self.current_row ≡ k
      → source_move move_last self ≡ (record self { current_row = k }, returned tt)
  unfolding source_move
  move-at self k h e =
      checked-none self 24 _ (Fetchable-Movable self h)
      ∙ ap (λ (i : ℤ). (record self { current_row = i }, returned tt)) e

  -- With the result of a query that gave no rows, `movelast` followed by `fetch (-1)` returns one
  -- row, of None in every column, if libpq has no value at the row -1.
  pub move_last-fetch_empty :
      (self : Source pq) (r : pq.Answer)
      → Fetchable self
      → self.result ≡ some r
      → self.max_row ≡ 0
      → ((j : ℕ) → pq.cell r (negsuc 0) j ≡ out_of_range)
      → (self₁ : Source pq) × ((self₂ : Source pq) × (source_move move_last self
            ≡ (self₁, returned tt))
          × (source_fetch py g pq self₁ (some (some (negsuc 0)))
              ≡ (self₂, returned (py.tuple_of (replicate self.num_fields py.none_obj) ∷ []))))
  unfolding check_source_obj fetch_rows fetch_row
  move_last-fetch_empty self r h e none_left outside =
      let self₁ : Source pq = record self { current_row = negsuc 0 } in
      (
        self₁,
        (
          record self { current_row = pos 0 },
          move-at self (negsuc 0) h (last_row_empty self.max_row self.current_row none_left),
          fetch-at py g pq self₁ r (negsuc 0) 1 (negsuc 0) (pos 0) h e refl
                (row_number_before self.max_row none_left) refl
              ∙ ap (λ l. (record self { current_row = pos 0 }, returned (py.tuple_of l ∷ [])))
                  (columns_out_of_range r self.encoding (negsuc 0) self.num_fields 0 outside),
        ),
      )

  -- With the result of a query that gave rows, `movelast` followed by `fetch (1)` returns the last
  -- of them, and leaves nothing to fetch.
  pub move_last-fetch :
      (self : Source pq) (r : pq.Answer) (n : ℕ)
      → Fetchable self
      → self.result ≡ some r
      → self.max_row ≡ suc n
      → (self₁ : Source pq) × ((self₂ : Source pq) × (source_move move_last self
            ≡ (self₁, returned tt))
          × (source_fetch py g pq self₁ (some (some (pos 1)))
              ≡ (self₂, returned (fetch_row py g pq r self.encoding self.num_fields (pos n) ∷ [])))
          × (self₂.current_row ≡ pos self.max_row))
  unfolding check_source_obj fetch_rows
  move_last-fetch self r n h e some_left =
      let self₁ : Source pq = record self { current_row = pos n } in
      (
        self₁,
        (
          record self { current_row = pos self.max_row },
          move-at self (pos n) h (last_row self.max_row n self.current_row some_left),
          fetch-at py g pq self₁ r (pos 1) 1 (pos n) (pos self.max_row) h e refl
              (row_number_last self.max_row n some_left) (plus_one self.max_row n some_left),
          refl,
        ),
      )

module _ (py : Python) (g : Settings py.Obj) (pq : Libpq) where
  field-outside :
      (self : Source pq) (r : pq.Answer) (j : ℕ)
      → Fetchable self
      → self.result ≡ some r
      → j < self.num_fields
      → pq.cell r self.current_row j ≡ out_of_range
      → source_field pq self (int_desc (pos j)) ≡ (self, null_pointer)
  unfolding source_field field_number
  field-outside self r j h e small outside =
      checked-none self 24 _ (Fetchable-Movable self h)
      ∙ ap
          (λ o.
            field_in pq self (int_desc (pos j))
              (λ a num. text_from pq (get_value (pq.cell a self.current_row num))) o)
          e
      ∙ rw (not_above self.num_fields j small, field_in) (rw outside refl)

  -- Once all rows of a result are fetched, from any row on, `field` with the number of a field passes
  -- a null pointer to CPython, where libpq, as it is documented, has no value behind the last row.
  pub fetch-field :
      (self : Source pq) (r : pq.Answer) (k j : ℕ)
      → Fetchable self
      → self.result ≡ some r
      → self.current_row ≡ pos k
      → k ≤ self.max_row
      → j < self.num_fields
      → ((n i : ℕ) → self.max_row ≤ n → pq.cell r (pos n) i ≡ out_of_range)
      → (l : List py.Obj) × ((self₁ : Source pq) × (source_fetch py g pq self
              (some (some (negsuc 0)))
            ≡ (self₁, returned l))
          × (source_field pq self₁ (int_desc (pos j)) ≡ (self₁, null_pointer)))
  unfolding check_source_obj
  fetch-field self r k j h e at le small outside =
      let self₁ : Source pq = record self { current_row = pos self.max_row } in
      (
        _,
        (
          self₁,
          fetch-at py g pq self r (negsuc 0) (self.max_row - k) (pos k) (pos self.max_row) h e at
              (row_number_all self.max_row k) (plus_left self.max_row k le),
          field-outside self₁ r j h e small (outside self.max_row j (omega arith)),
        ),
      )
