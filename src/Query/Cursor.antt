-- ===== src/Query/Cursor.antt =====
-- A cursor over a list of rows: what the methods of a query that is not asynchronous are to do.
use py_gre_sql.Base.{
  ℕ, zero, suc, ◌+◌, ◌≤◌, ◌<◌, leb, true, false, ==_eq, ==_ne, List, [], ◌∷◌, Option, none, some,
  length, get_elem?, drop, ◌≡◌, refl, sym, arith, Option-cases, inl, inr,
}
use py_gre_sql.Python.{Python}
use py_gre_sql.Settings.{Settings}
use py_gre_sql.Libpq.{Libpq}
use py_gre_sql.Conn.{Return, gives, raises, stop_iteration, multiple_results, no_result_found}
use py_gre_sql.Query.{Query}
use py_gre_sql.Query.Rows.{next_row, one_row, single_row, rows_from, all_rows}

module _ {Obj : Type 0} where
  -- The new row number and the answer, where `missing` is the answer behind the last row.
  abbrev pub row_taken : Return Obj → ℕ → Option Obj → ℕ × Return Obj
  row_taken missing k none = (k, missing)
  row_taken missing k (some o) = (suc k, gives o)

  unfoldable pub take_row : Return Obj → List Obj → ℕ → ℕ × Return Obj
  take_row missing rows k = row_taken missing k (get_elem? rows k)

  -- the only row
  unfoldable pub only_row : List Obj → ℕ → ℕ × Return Obj
  only_row [] k = (k, raises no_result_found)
  only_row (o ∷ []) k = (1, gives o)
  only_row (o ∷ p ∷ rows) k = (k, raises multiple_results)

pub get_elem?-none : {A : Type 0} (xs : List A) (k : ℕ) → get_elem? xs k ≡ none → length xs ≤ k
get_elem?-none [] k h = omega arith
get_elem?-none (x ∷ xs) zero h = cc
get_elem?-none (x ∷ xs) (suc k) h = omega (arith, get_elem?-none xs k h)

pub get_elem?-some :
    {A : Type 0} (xs : List A) (k : ℕ) (x : A) → get_elem? xs k ≡ some x → k < length xs
get_elem?-some [] k x h = cc
get_elem?-some (y ∷ xs) zero x h = omega arith
get_elem?-some (y ∷ xs) (suc k) x h = omega (arith, get_elem?-some xs k x h)

not_lt_zero : (n : ℕ) → n < 0 → ⊥
not_lt_zero n h = omega arith

zero_not_suc : (n : ℕ) → 0 ≡ suc n → ⊥
zero_not_suc n h = omega arith

pub zero_add_eq : (k n : ℕ) → 0 + k ≡ n → k ≡ n
zero_add_eq k n h = omega arith

pub leb-true : (a b : ℕ) → a ≤ b → leb a b ≡ true
leb-true a b h = ground arith

pub leb-false : (a b : ℕ) → b < a → leb a b ≡ false
leb-false a b h = ground arith

pub get_elem?-drop :
    {A : Type 0} (xs : List A) (k : ℕ)
    → k < length xs
    → (x : A) × ((get_elem? xs k ≡ some x) × (drop k xs ≡ x ∷ drop (suc k) xs))
get_elem?-drop [] k h = elim (not_lt_zero k h) [ ]
get_elem?-drop (x ∷ xs) zero h = (x, (refl, refl))
get_elem?-drop (x ∷ xs) (suc k) h = get_elem?-drop xs k (omega arith)

pub drop-length : {A : Type 0} (xs : List A) (k : ℕ) → k ≡ length xs → drop k xs ≡ []
drop-length [] zero h = refl
drop-length [] (suc k) h = refl
drop-length (x ∷ xs) zero h = elim (zero_not_suc (length xs) h) [ ]
drop-length (x ∷ xs) (suc k) h = drop-length xs k (omega arith)

module _ (py : Python) (g : Settings py.Obj) (pq : Libpq) where
  -- a query at another row of its result
  abbrev pub at_row : Query py pq → ℕ → Query py pq
  at_row base k = record base { current_row = k }

  -- the reply of a cursor, at the row where it leaves the query
  abbrev pub placed : Query py pq → ℕ × Return py.Obj → Query py pq × Return py.Obj
  placed base (k, r) = (at_row base k, r)

  module _ (read : Query py pq → Return py.Obj) (base : Query py pq) (rows : List py.Obj) where
    -- The result of the query has these rows.
    abbrev pub Shows : Type 0
    Shows =
        (base.max_row ≡ length rows)
        × ((k : ℕ) (o : py.Obj) → get_elem? rows k ≡ some o → read (at_row base k) ≡ gives o)

    pub next_row_lem :
        Shows
        → (k : ℕ)
        → next_row py g pq read (at_row base k)
          ≡ placed base (take_row (raises stop_iteration) rows k)
    unfolding next_row take_row
    next_row_lem s k = elim (Option-cases (get_elem? rows k)) [
      | inl e ↦ rw (e, leb-true base.max_row k (omega (arith, s.0, get_elem?-none rows k e))) refl
      | inr (o, e) ↦
          rw
            (e, leb-false base.max_row k (omega (arith, s.0, get_elem?-some rows k o e)), s.1 k o e)
            refl
    ]

    pub one_row_lem :
        Shows
        → (k : ℕ)
        → one_row py g pq read (at_row base k) ≡ placed base (take_row (gives py.none_obj) rows k)
    unfolding one_row take_row
    one_row_lem s k = elim (Option-cases (get_elem? rows k)) [
      | inl e ↦ rw (e, leb-true base.max_row k (omega (arith, s.0, get_elem?-none rows k e))) refl
      | inr (o, e) ↦
          rw
            (e, leb-false base.max_row k (omega (arith, s.0, get_elem?-some rows k o e)), s.1 k o e)
            refl
    ]

  pub single_row_lem :
      (read : Query py pq → Return py.Obj) (base : Query py pq) (rows : List py.Obj)
      → Shows read base rows
      → (k : ℕ) → single_row py g pq read (at_row base k) ≡ placed base (only_row rows k)
  unfolding single_row only_row
  single_row_lem read base [] s k =
      rw (==_ne base.max_row 1 (omega (arith, s.0)), ==_eq base.max_row 0 s.0) refl
  single_row_lem read base (o ∷ []) s k = rw (==_eq base.max_row 1 s.0, s.1 0 o refl) refl
  single_row_lem read base (o ∷ p ∷ rows) s k =
      rw (==_ne base.max_row 1 (omega (arith, s.0)), ==_ne base.max_row 0 (omega (arith, s.0))) refl

  rows_from_lem :
      (read : Query py pq → Return py.Obj) (base : Query py pq) (rows : List py.Obj)
      → Shows read base rows
      → (n k : ℕ) → n + k ≡ length rows
      → rows_from py g pq read n (at_row base k) ≡ (at_row base (length rows), gives (drop k rows))
  unfolding rows_from take_row
  rows_from_lem read base rows s zero k h =
      rw (drop-length rows k (zero_add_eq k (length rows) h), sym (zero_add_eq k (length rows) h))
        refl
  rows_from_lem read base rows s (suc n) k h =
      let (o, found) = get_elem?-drop rows k (omega arith) in
      rw
        (
          next_row_lem read base rows s k,
          found.0,
          rows_from_lem read base rows s n (suc k) (omega arith),
          found.1,
        )
        refl

  pub all_rows_lem :
      (read : Query py pq → Return py.Obj) (base : Query py pq) (rows : List py.Obj)
      → Shows read base rows
      → (k : ℕ)
      → all_rows py g pq read (at_row base k) ≡ (at_row base (length rows), gives (py.list_of rows))
  unfolding all_rows
  all_rows_lem read base rows s k =
      rw (rows_from_lem read base rows s base.max_row 0 (omega (arith, s.0))) refl
