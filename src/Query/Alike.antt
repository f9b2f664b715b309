-- ===== src/Query/Alike.antt =====
-- Reading a row does not depend on the state of the connection or on the mode of the query, and
-- reading all rows changes the row number only.
use py_gre_sql.Base.{
  ℕ, zero, suc, leb, List, [], ◌∷◌, Bytes, ◌≡◌, refl, sym, ap, Bool-cases, inl, inr,
}
use py_gre_sql.Python.{Python}
use py_gre_sql.Settings.{Settings}
use py_gre_sql.Libpq.{Libpq}
use py_gre_sql.Source.{Connection}
use py_gre_sql.Conn.{Return, gives, raises, undefined, unfinished, ◌>>=◌, stop_iteration}
use py_gre_sql.Query.{
  Query, AsyncMode, cast_by, query_value_in_column, values_from, query_row_as_tuple,
}
use py_gre_sql.Query.Rows.{next_row, rows_from, advance, as_tuple}
use py_gre_sql.Query.Cursor.{at_row}

module _ (py : Python) (g : Settings py.Obj) (pq : Libpq) where
  -- the same result, seen over another state of the connection and in another mode
  abbrev pub seen : Connection pq → AsyncMode → Query py pq → Query py pq
  seen c mode self = record self { pgcnx = record self.pgcnx { base = c }; async = mode }

  module _ (garbage : Bytes) (c : Connection pq) (mode : AsyncMode) (self : Query py pq) where
    values-seen :
        (n j : ℕ)
        → values_from py g pq garbage (seen c mode self) n j ≡ values_from py g pq garbage self n j
    unfolding values_from query_value_in_column cast_by
    values-seen zero j = refl
    values-seen (suc n) j = rw (values-seen n (suc j)) refl

    pub tuple-seen : as_tuple py g pq garbage (seen c mode self) ≡ as_tuple py g pq garbage self
    unfolding query_row_as_tuple
    tuple-seen = rw (values-seen self.num_fields 0) refl

  module _ (read : Query py pq → Return py.Obj) (base other : Query py pq) where
    -- both queries read the same rows
    abbrev pub Alike : Type 0
    Alike =
        (base.max_row ≡ other.max_row)
        × ((k : ℕ) → read (at_row py g pq base k) ≡ read (at_row py g pq other k))

    abbrev Both : (Query py pq → Query py pq × Return (List py.Obj)) → ℕ → Type 0
    Both f k =
        (l : ℕ) × ((o : Return (List py.Obj)) × (f (at_row py g pq base k)
            ≡ (at_row py g pq base l, o))
          × (f (at_row py g pq other k) ≡ (at_row py g pq other l, o)))

    after_row :
        (n k : ℕ) (v : Return py.Obj)
        → next_row py g pq read (at_row py g pq base k) ≡ advance py g pq (at_row py g pq base k) v
        → next_row py g pq read (at_row py g pq other k)
          ≡ advance py g pq (at_row py g pq other k) v
        → Both (rows_from py g pq read n) (suc k)
        → Both (rows_from py g pq read (suc n)) k
    unfolding rows_from
    after_row n k (gives o) e d (l, (os, h, i)) =
        (l, (os >>= (λ rows. gives (o ∷ rows)), rw (e, h) refl, rw (d, i) refl))
    after_row n k (raises x) e d h = (k, (raises x, rw e refl, rw d refl))
    after_row n k (undefined u) e d h = (k, (undefined u, rw e refl, rw d refl))
    after_row n k unfinished e d h = (k, (unfinished, rw e refl, rw d refl))

    pub rows-alike : Alike → (n k : ℕ) → Both (rows_from py g pq read n) k
    unfolding next_row rows_from
    rows-alike h zero k = (k, (gives [], refl, refl))
    rows-alike h (suc n) k = elim (Bool-cases (leb base.max_row k)) [
      | inl e ↦
          after_row n k (raises stop_iteration) (rw e refl)
            (rw (sym (ap (λ m. leb m k) h.0), e) refl) (rows-alike h n (suc k))
      | inr e ↦
          after_row n k (read (at_row py g pq base k)) (rw e refl)
            (rw (sym (ap (λ m. leb m k) h.0), e, h.1 k) refl) (rows-alike h n (suc k))
    ]
