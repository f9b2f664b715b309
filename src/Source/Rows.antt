-- ===== src/Source/Rows.antt =====
-- What `fetch` returns: successive rows, up to the last.
use py_gre_sql.Base.{
  ℕ, zero, suc, ◌+◌, ℤ, pos, negsuc, ◌+ℤ◌, succ_ℤ, List, ◌∷◌, ◌++◌, none, some, ◌≡◌, refl, sym, ap,
  ◌∙◌, arith, length, Option-cases, inl, inr,
}
use py_gre_sql.Settings.{Settings}
use py_gre_sql.Python.{Python}
use py_gre_sql.Libpq.{Libpq}
use py_gre_sql.Source.{
  Source, Reply, returned, check_cnx, check_result, check_dql, check_source_obj,
}
use py_gre_sql.Source.Checks.{checked-none}
use py_gre_sql.Source.Fetch.{fetch_row, fetch_rows, fetch_from, fetch_given, source_fetch}
use py_gre_sql.Source.Counts.{
  row_number, row_number-split, add_zero, zero-plus, suc-plus, succ_add, add_assoc,
}

-- the checks of `fetch` pass
abbrev pub Fetchable : {pq : Libpq} → Source pq → Type 0
Fetchable self = check_source_obj self (check_result + check_dql + check_cnx) ≡ none

module _ (py : Python) (g : Settings py.Obj) (pq : Libpq) (r : pq.Answer)
    (encoding fields : ℕ) where
  abbrev pub rows : ℕ → ℤ → List py.Obj × ℤ
  rows n k = fetch_rows py g pq r encoding fields n k

  pub rows_end : (n : ℕ) (k : ℤ) → (rows n k).1 ≡ k +ℤ pos n
  unfolding fetch_rows
  rows_end zero (pos k) = ground arith
  rows_end zero (negsuc k) = ground arith
  rows_end (suc n) k = rows_end n (succ_ℤ k) ∙ succ_add k n

  pub length-rows : (n : ℕ) (k : ℤ) → length (rows n k).0 ≡ n
  unfolding fetch_rows
  length-rows zero k = refl
  length-rows (suc n) k = ap suc (length-rows n (succ_ℤ k))

  rows_append : (m n : ℕ) (k : ℤ) → (rows (m + n) k).0 ≡ (rows m k).0 ++ (rows n (k +ℤ pos m)).0
  unfolding fetch_rows
  rows_append zero n k = rw (zero-plus n, add_zero k) refl
  rows_append (suc m) n k = rw (suc-plus m n) (
      ap (◌∷◌ (fetch_row py g pq r encoding fields k)) (
        rows_append m n (succ_ℤ k)
        ∙ ap (λ q. (rows m (succ_ℤ k)).0 ++ (rows n q).0) (succ_add k m)))

module _ (py : Python) (g : Settings py.Obj) (pq : Libpq) (self : Source pq) where
  abbrev fetch : Source pq → ℤ → Source pq × Reply (List py.Obj)
  fetch s size = source_fetch py g pq s (some (some size))

  pub source_fetch_lem :
      (r : pq.Answer) (size : ℤ)
      → Fetchable self
      → self.result ≡ some r
      → fetch self size ≡ (
        record self {
          current_row = self.current_row +ℤ pos (row_number self.max_row self.current_row size);
        },
        returned
            (rows py g pq r self.encoding self.num_fields
              (row_number self.max_row self.current_row size)
              self.current_row).0,
      )
  unfolding source_fetch
  source_fetch_lem r size h e =
      checked-none self 28 (fetch_given py g pq self (some size)) h
      ∙ ap (fetch_from py g pq self size) e
      ∙ rw
          (rows_end py g pq r self.encoding self.num_fields
            (row_number self.max_row self.current_row size) self.current_row)
          refl

  pub Fetchable-result : Fetchable self → (r : pq.Answer) × (self.result ≡ some r)
  unfolding check_source_obj
  Fetchable-result h = elim (Option-cases self.result) [
    | inr (r, e) ↦ (r, e)
    | inl e ↦ ground arith
  ]

module _ (py : Python) (g : Settings py.Obj) (pq : Libpq) where
  -- `fetch` from a row that is known, with the number of rows that it gives and the row behind them
  pub fetch-at :
      (self : Source pq) (r : pq.Answer) (size : ℤ) (n : ℕ) (k k₁ : ℤ)
      → Fetchable self
      → self.result ≡ some r
      → self.current_row ≡ k
      → row_number self.max_row k size ≡ n
      → k +ℤ pos n ≡ k₁
      → source_fetch py g pq self (some (some size)) ≡ (
        record self { current_row = k₁ },
        returned (rows py g pq r self.encoding self.num_fields n k).0,
      )
  fetch-at self r size n k k₁ h e at number behind =
      source_fetch_lem py g pq self r size h e
      ∙ ap
          (λ (i : ℤ).
            let c = row_number self.max_row i size in
            (
              record self { current_row = i +ℤ pos c },
              returned (rows py g pq r self.encoding self.num_fields c i).0,
            ))
          at
      ∙ ap
          (λ (c : ℕ). (
            record self { current_row = k +ℤ pos c },
            returned (rows py g pq r self.encoding self.num_fields c k).0,
          ))
          number
      ∙ ap
          (λ (i : ℤ). (
            record self { current_row = i },
            returned (rows py g pq r self.encoding self.num_fields n k).0,
          ))
          behind

module _ (py : Python) (g : Settings py.Obj) (pq : Libpq) where
  -- A source whose checks pass gives its rows in order: to fetch `m` rows and then `n` more, each
  -- up to the last row, returns the same rows and leaves the same source as to fetch `m + n`.
  pub fetch-fetch :
      (self : Source pq) (m n : ℕ)
      → Fetchable self
      → (rows₁ : List py.Obj) × ((rows₂ : List py.Obj) × ((self₁ : Source pq) × ((self₂ : Source pq)
              × (source_fetch py g pq self (some (some (pos m))) ≡ (self₁, returned rows₁))
              × (source_fetch py g pq self₁ (some (some (pos n))) ≡ (self₂, returned rows₂))
              × (source_fetch py g pq self (some (some (pos (m + n))))
                  ≡ (self₂, returned (rows₁ ++ rows₂))))))
  unfolding check_source_obj
  fetch-fetch self m n h =
      let (r, e) = Fetchable-result py g pq self h in
      let a = row_number self.max_row self.current_row (pos m) in
      let k = self.current_row +ℤ pos a in
      let b = row_number self.max_row k (pos n) in
      let self₁ : Source pq = record self { current_row = k } in
      let self₂ : Source pq = record self { current_row = k +ℤ pos b } in
      let split = row_number-split self.max_row self.current_row m n in
      (
        _,
        (
          _,
          (
            self₁,
            (
              self₂,
              source_fetch_lem py g pq self r (pos m) h e,
              source_fetch_lem py g pq self₁ r (pos n) h e,
              source_fetch_lem py g pq self r (pos (m + n)) h e
                  ∙ ap
                      (λ c. (
                        record self { current_row = self.current_row +ℤ pos c },
                        returned
                            (rows py g pq r self.encoding self.num_fields c self.current_row).0,
                      ))
                      split
                  ∙ ap
                      (λ q. (
                        record self { current_row = q },
                        returned
                            (rows py g pq r self.encoding self.num_fields (a + b)
                              self.current_row).0,
                      ))
                      (sym (add_assoc self.current_row a b))
                  ∙ ap (λ l. (self₂, returned l))
                      (rows_append py g pq r self.encoding self.num_fields a b self.current_row),
            ),
          ),
        ),
      )
