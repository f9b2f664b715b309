-- ===== src/Format/Widths.antt =====
-- The widths that `format_result` computes: the name and every value of a column fit in it.
use py_gre_sql.Base.{
  ℕ, zero, suc, ◌+◌, ◌<◌, ◌≤◌, pos, List, [], ◌∷◌, map, Bytes, length, ◌≡◌, ◌⊎◌, inl, inr, refl,
  sym, ap, ◌∙◌, arith,
}
use mathlib.Core.Path.{subst}
use py_gre_sql.Types.Laws.{All}
use py_gre_sql.Libpq.{Libpq, Cell}
use py_gre_sql.Format.{
  Column, Align, binary, align_right, align_left, align_of, binary_width, first_width, first_widths,
  get_length, widen, widen_by, widen_rows, layout,
}
use py_gre_sql.Format.Lines.{Fits}

widen_by-ge : (a : Align) (w k : ℕ) → w ≤ widen_by a w k
widen_by-ge binary w k = omega arith
widen_by-ge align_right w k = ground arith
widen_by-ge align_left w k = ground arith

Fits-mono : (a : Align) (w w' : ℕ) (v : Cell) → w ≤ w' → Fits a w v → Fits a w' v
Fits-mono binary w w' v h k = omega arith
Fits-mono align_right w w' v h k = omega arith
Fits-mono align_left w w' v h k = omega arith

-- a binary column has room for "<binary>"
abbrev BinaryFits : Align → ℕ → Type 0
BinaryFits binary w = 8 ≤ w
BinaryFits _ w = Unit

BinaryFits-mono : (a : Align) (w w' : ℕ) → w ≤ w' → BinaryFits a w → BinaryFits a w'
BinaryFits-mono binary w w' h k = omega arith
BinaryFits-mono align_right w w' h k = tt
BinaryFits-mono align_left w w' h k = tt

Fits-widen_by :
    (a : Align) (w : ℕ) (v : Cell) → BinaryFits a w → Fits a (widen_by a w (get_length v)) v
Fits-widen_by binary w v h = h
Fits-widen_by align_right w v h = ground arith
Fits-widen_by align_left w v h = ground arith

lt_suc_cases : (i k : ℕ) → i < suc k → (i < k) ⊎ (i ≡ k)
lt_suc_cases i k h = ground arith

zero_add_eq : (k n : ℕ) → 0 + k ≡ n → k ≡ n
zero_add_eq k n h = omega arith

not_lt_zero : (i : ℕ) → i < 0 → ⊥
not_lt_zero i h = omega arith

BinaryFits-align_of : (ftype w : ℕ) → BinaryFits (align_of ftype) w
BinaryFits-align_of ftype w = ground arith

binary_width-ge : (m w : ℕ) → w ≤ binary_width m w
binary_width-ge zero w = omega arith
binary_width-ge (suc m) w = ground arith

binary_width-8 : (m w : ℕ) → 0 < m → 8 ≤ binary_width m w
binary_width-8 zero w h = omega arith
binary_width-8 (suc m) w h = ground arith

length-map : (f : Column → Column) (cs : List Column) → length (map f cs) ≡ length cs
length-map f [] = refl
length-map f (c ∷ cs) = ap suc (length-map f cs)

module _ (pq : Libpq) (r : pq.Answer) where
  -- what holds of a column when the values of the first `k` rows have been seen
  abbrev pub Fitted : ℕ → Column → Type 0
  Fitted k c =
      (length c.name ≤ c.width)
      × (c.number < pq.nfields r)
      × (0 < pq.ntuples r → BinaryFits c.align c.width)
      × ((i : ℕ) → i < k → Fits c.align c.width (pq.cell r (pos i) c.number))

  widen-Fitted :
      (k : ℕ) (c : Column) → k < pq.ntuples r → Fitted k c → Fitted (suc k) (widen pq r k c)
  unfolding widen
  widen-Fitted k c h (a, b, e, f) =
      let v = pq.cell r (pos k) c.number in
      let up = widen_by-ge c.align c.width (get_length v) in
      (
        omega (arith, up, a),
        b,
        λ g. BinaryFits-mono c.align c.width (widen_by c.align c.width (get_length v)) up (e g),
        λ i g. elim (lt_suc_cases i k g) [
          | inl l ↦
              Fits-mono c.align c.width (widen_by c.align c.width (get_length v))
                (pq.cell r (pos i) c.number) up (f i l)
          | inr l ↦
              subst
                (λ n.
                  Fits c.align (widen_by c.align c.width (get_length v))
                    (pq.cell r (pos n) c.number))
                (sym l) (Fits-widen_by c.align c.width v (e (omega arith)))
        ],
      )

  map-Fitted :
      (k : ℕ) (cs : List Column)
      → k < pq.ntuples r
      → All (Fitted k) cs
      → All (Fitted (suc k)) (map (widen pq r k) cs)
  map-Fitted k [] h a = tt
  map-Fitted k (c ∷ cs) h a = (widen-Fitted k c h a.0, map-Fitted k cs h a.1)

  widen_rows-Fitted :
      (m k : ℕ) (cs : List Column)
      → m + k ≡ pq.ntuples r
      → All (Fitted k) cs
      → All (Fitted (pq.ntuples r)) (widen_rows pq r m k cs)
  unfolding widen_rows
  widen_rows-Fitted zero k cs h a =
      subst (λ n. All (Fitted n) cs) (zero_add_eq k (pq.ntuples r) h) a
  widen_rows-Fitted (suc m) k cs h a =
      widen_rows-Fitted m (suc k) (map (widen pq r k) cs) (omega arith)
        (map-Fitted k cs (omega arith) a)

  first_width-Fitted :
      (j format ftype : ℕ) (name : Bytes)
      → j < pq.nfields r
      → Fitted 0 (first_width (pq.ntuples r) j name format ftype)
  unfolding first_width
  first_width-Fitted j zero ftype name h = (
    omega arith,
    h,
    λ g. BinaryFits-align_of ftype (length name),
    λ i g. elim (not_lt_zero i g) [ ],
  )
  first_width-Fitted j (suc format) ftype name h = (
    binary_width-ge (pq.ntuples r) (length name),
    h,
    binary_width-8 (pq.ntuples r) (length name),
    λ i g. elim (not_lt_zero i g) [ ],
  )

  first_widths-Fitted :
      (n j : ℕ) → n + j ≡ pq.nfields r → All (Fitted 0) (first_widths pq r (pq.ntuples r) n j)
  unfolding first_widths
  first_widths-Fitted zero j h = tt
  first_widths-Fitted (suc n) j h = (
    first_width-Fitted j (pq.fformat r j) (pq.ftype r j) (pq.fname r j) (omega arith),
    first_widths-Fitted n (suc j) (omega arith),
  )

  length-widen_rows : (m i : ℕ) (cs : List Column) → length (widen_rows pq r m i cs) ≡ length cs
  unfolding widen_rows
  length-widen_rows zero i cs = refl
  length-widen_rows (suc m) i cs =
      length-widen_rows m (suc i) (map (widen pq r i) cs) ∙ length-map (widen pq r i) cs

  length-first_widths : (m n j : ℕ) → length (first_widths pq r m n j) ≡ n
  unfolding first_widths
  length-first_widths m zero j = refl
  length-first_widths m (suc n) j = ap suc (length-first_widths m n (suc j))

  pub length-layout : length (layout pq r) ≡ pq.nfields r
  unfolding layout
  length-layout =
      let m = pq.ntuples r in
      length-widen_rows m 0 (first_widths pq r m (pq.nfields r) 0)
      ∙ length-first_widths m (pq.nfields r) 0

  pub layout-Fitted : All (Fitted (pq.ntuples r)) (layout pq r)
  unfolding layout
  layout-Fitted =
      widen_rows-Fitted (pq.ntuples r) 0 (first_widths pq r (pq.ntuples r) (pq.nfields r) 0)
        (omega arith) (first_widths-Fitted (pq.nfields r) 0 (omega arith))
