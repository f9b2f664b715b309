-- ===== src/Source/Invariant.antt =====
-- What holds of a source whatever methods are called, in whatever order.
pub mod Execute
pub mod Copy
pub mod Reach
use py_gre_sql.Base.{
  ℕ, zero, suc, ◌+◌, ◌-◌, ◌≤◌, ℤ, pos, negsuc, pos_part, neg_part, sub_ℕ, ◌-ℤ◌, ◌+ℤ◌, succ_ℤ,
  is_minus_one, Bool, true, false, Option, none, some, [], ◌∷◌, Bytes, ◌==◌, if◌then◌else◌, ◌≡◌,
  ◌≢◌, refl, sym, arith, ◌⊎◌, inl, inr, Option-cases, Bool-cases,
}
use mathlib.Core.Path.{subst}
use py_gre_sql.Settings.{Settings}
use py_gre_sql.Python.{Python}
use py_gre_sql.Libpq.{
  Libpq, Status, tuples_ok, command_ok, copy_out, copy_in, empty_query, bad_response, fatal_error,
  nonfatal_error, other_status,
}
use py_gre_sql.Source.{
  drop_result, Failure, Connection, Source, Reply, Argument, result_dql, result_dml, result_ddl,
  check_source_obj, source_close, source_setattr, conn_source, checked,
}
use py_gre_sql.Source.Execute.{
  source_execute, by_status, command_done, execute_on, run_query, reset, query_text, take_result,
}
use py_gre_sql.Source.Fetch.{
  Direction, fetch_size, fetch_from, source_fetch, source_move, moved_row, move_first, move_last,
  move_next, move_prev,
}
use py_gre_sql.Source.Copy.{source_putdata, source_getdata}
use py_gre_sql.Source.Checks.{checked-All}
use py_gre_sql.Source.Counts.{row_number, left_rows}
use py_gre_sql.Source.Rows.{rows_end}

-- The current row is one of the result, or behind the last, or in front of the first of none.
abbrev pub InRange : ℕ → ℤ → Type 0
InRange max_row (pos k) = k ≤ max_row
InRange max_row (negsuc k) = (k ≡ 0) × (max_row ≡ 0)

-- what holds while there is a result
abbrev pub WellPlaced : {pq : Libpq} → Source pq → Option pq.Answer → Type 0
WellPlaced self none = Unit
WellPlaced {pq} self (some r) =
    InRange self.max_row self.current_row
    × ((self.result_type ≡ result_dql)
        → (self.max_row ≡ pq.ntuples r) × (self.num_fields ≡ pq.nfields r))

abbrev pub WellFormed : {pq : Libpq} → Source pq → Type 0
WellFormed self = WellPlaced self self.result

pub placed-cnx :
    {pq : Libpq} (self : Source pq) (c : Connection pq) (o : Option pq.Answer)
    → WellPlaced self o
    → WellPlaced (record self { pgcnx = c }) o
placed-cnx self c none h = tt
placed-cnx self c (some r) h = h

placed-arraysize :
    {pq : Libpq} (self : Source pq) (n : ℤ) (o : Option pq.Answer)
    → WellPlaced self o
    → WellPlaced (record self { arraysize = n }) o
placed-arraysize self n none h = tt
placed-arraysize self n (some r) h = h

pub placed-none : {pq : Libpq} (self : Source pq) → self.result ≡ none → WellFormed self
placed-none self e = subst (λ o. WellPlaced self o) (sym e) tt

drop_result-result :
    {pq : Libpq} (self : Source pq) (o : Option pq.Answer)
    → self.result ≡ o
    → (drop_result self o).result ≡ none
drop_result-result self none e = e
drop_result-result self (some r) e = refl

placed-row :
    {pq : Libpq} (self : Source pq) (k : ℤ) (o : Option pq.Answer)
    → WellPlaced self o
    → (InRange self.max_row self.current_row → InRange self.max_row k)
    → WellPlaced (record self { current_row = k }) o
placed-row self k none h f = tt
placed-row self k (some r) h f = (f h.0, h.1)

suc-ne-zero : (n : ℕ) → suc n ≢ 0
suc-ne-zero n e = omega (arith, e)

moved_row-InRange :
    (d : Direction) (max_row : ℕ) (k : ℤ)
    → InRange max_row k
    → InRange max_row (moved_row d max_row k)
unfolding moved_row
moved_row-InRange move_first max_row k h = omega arith
moved_row-InRange move_last zero k h = (refl, refl)
moved_row-InRange move_last (suc n) k h = ground arith
moved_row-InRange move_next max_row (pos k) h = ground arith
moved_row-InRange move_next max_row (negsuc zero) h = omega arith
moved_row-InRange move_next max_row (negsuc (suc k)) h = elim (suc-ne-zero k h.0) [ ]
moved_row-InRange move_prev max_row (pos zero) h = h
moved_row-InRange move_prev max_row (pos (suc k)) h = omega arith
moved_row-InRange move_prev max_row (negsuc k) h = h

row_number_bound : (max_row : ℕ) (k size : ℤ) → row_number max_row k size ≤ left_rows max_row k
unfolding fetch_size
row_number_bound max_row (pos k) size = ground arith
row_number_bound max_row (negsuc k) size = ground arith

fetched-InRange :
    (max_row : ℕ) (k : ℤ) (a : ℕ)
    → a ≤ left_rows max_row k
    → InRange max_row k
    → InRange max_row (k +ℤ pos a)
fetched-InRange max_row (pos k) a h i = ground arith
fetched-InRange max_row (negsuc zero) zero h i = i
fetched-InRange max_row (negsuc zero) (suc a) h i = ground arith
fetched-InRange max_row (negsuc (suc k)) a h i = elim (suc-ne-zero k i.0) [ ]

module _ (py : Python) (g : Settings py.Obj) (pq : Libpq) where
  pub close-WellFormed : (self : Source pq) → WellFormed (source_close self).0
  unfolding source_close
  close-WellFormed self =
      placed-none (source_close self).0 (drop_result-result self self.result refl)

  pub setattr-WellFormed :
      (self : Source pq) (b : Bool) (v : Option ℤ)
      → WellFormed self
      → WellFormed (source_setattr self b v).0
  unfolding source_setattr
  setattr-WellFormed self false v h = h
  setattr-WellFormed self true none h = h
  setattr-WellFormed self true (some n) h = placed-arraysize self n self.result h

  pub move-WellFormed :
      (self : Source pq) (d : Direction) → WellFormed self → WellFormed (source_move d self).0
  unfolding source_move
  move-WellFormed self d h =
      checked-All self _ _ WellFormed h
        (placed-row self _ self.result h (moved_row-InRange d self.max_row self.current_row))

  fetch_from-WellFormed :
      (self : Source pq) (size : ℤ) (o : Option pq.Answer)
      → WellFormed self
      → WellFormed (fetch_from py g pq self size o).0
  fetch_from-WellFormed self size none h = h
  fetch_from-WellFormed self size (some r) h =
      let n = row_number self.max_row self.current_row size in
      placed-row self _ self.result h λ i.
        rw (rows_end py g pq r self.encoding self.num_fields n self.current_row) (
          fetched-InRange self.max_row self.current_row n
            (row_number_bound self.max_row self.current_row size) i)

  pub fetch-WellFormed :
      (self : Source pq) (args : Option (Option ℤ))
      → WellFormed self
      → WellFormed (source_fetch py g pq self args).0
  unfolding source_fetch
  fetch-WellFormed self none h = checked-All self _ _ WellFormed h h
  fetch-WellFormed self (some none) h =
      checked-All self _ _ WellFormed h (fetch_from-WellFormed self self.arraysize self.result h)
  fetch-WellFormed self (some (some size)) h =
      checked-All self _ _ WellFormed h (fetch_from-WellFormed self size self.result h)
