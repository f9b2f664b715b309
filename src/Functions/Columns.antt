-- ===== src/Functions/Columns.antt =====
-- `pg_cast_record` of pgmodule.c with a cast for each column.
use py_gre_sql.Base.{
  ℕ, zero, suc, ◌+◌, ◌<◌, ◌≡◌, refl, ◌∙◌, sym, ap, List, [], ◌∷◌, Bytes, Option, none, some, length,
  arith, inl, inr, ◌==◌, false, ==_refl,
}
use py_gre_sql.Settings.{Settings}
use py_gre_sql.Python.{Python}
use py_gre_sql.Outcome.{ok}
use py_gre_sql.Elements.{external_text}
use py_gre_sql.Record.{Maker}
use py_gre_sql.Record.RoundTrip.{
  printed_record, field_values, IsDelimiter, IsColumn, cast_record-printed,
}
use py_gre_sql.Record.Cast.{
  column_casts, external_field, cast_field, record_maker, cast_record_value,
}
use py_gre_sql.Source.{byte_string}
use py_gre_sql.Conn.{gives}
use py_gre_sql.Functions.{cast_items, string_argument, record_casts, pg_cast_record}

-- the function at a column
abbrev value_at : {Obj : Type 0} → List (Obj → Obj) → ℕ → Obj → Obj
value_at [] i o = o
value_at (v ∷ vs) zero o = v o
value_at (v ∷ vs) (suc i) o = value_at vs i o

module _ (py : Python) where
  -- Each cast gives for every text what its function says; None leaves the text.
  abbrev pub CastsTo : List (Option py.Obj) → List (py.Obj → py.Obj) → Type 0
  CastsTo [] [] = Unit
  CastsTo (none ∷ fs) (v ∷ vs) = ((o : py.Obj) → v o ≡ o) × CastsTo fs vs
  CastsTo (some f ∷ fs) (v ∷ vs) = ((o : py.Obj) → py.call f (o ∷ []) ≡ some (v o)) × CastsTo fs vs
  CastsTo _ _ = ⊥

  -- a row, column by column
  abbrev column_value : (py.Obj → py.Obj) → (Bytes → py.Obj) → Option Bytes → py.Obj
  column_value v text none = py.none_obj
  column_value v text (some b) = v (text b)

  abbrev pub column_values :
      List (py.Obj → py.Obj) → (Bytes → py.Obj) → List (Option Bytes) → List py.Obj
  column_values [] text xs = []
  column_values (v ∷ vs) text [] = []
  column_values (v ∷ vs) text (x ∷ xs) = column_value v text x ∷ column_values vs text xs

  length-CastsTo :
      (fs : List (Option py.Obj)) (vs : List (py.Obj → py.Obj))
      → CastsTo fs vs
      → length fs ≡ length vs
  length-CastsTo [] [] h = refl
  length-CastsTo [] (v ∷ vs) h = elim h [ ]
  length-CastsTo (none ∷ fs) (v ∷ vs) h = ap suc (length-CastsTo fs vs h.1)
  length-CastsTo (some f ∷ fs) (v ∷ vs) h = ap suc (length-CastsTo fs vs h.1)
  length-CastsTo (none ∷ fs) [] h = elim h [ ]
  length-CastsTo (some f ∷ fs) [] h = elim h [ ]

  suc_nonzero : (n : ℕ) → (suc n == 0) ≡ false
  suc_nonzero n = ground arith

  at_first :
      (i : ℕ) (f : ℕ → Bytes → py.Obj) (text : Bytes → py.Obj) (v : py.Obj → py.Obj)
      (vs : List (py.Obj → py.Obj))
      → ((j : ℕ) (b : Bytes) → f (i + j) b ≡ value_at (v ∷ vs) j (text b))
      → (b : Bytes) → f i b ≡ v (text b)
  at_first i f text v vs h b = let same : i ≡ i + 0 = omega arith in ap (λ k. f k b) same ∙ h 0 b

  behind_first :
      (i : ℕ) (f : ℕ → Bytes → py.Obj) (text : Bytes → py.Obj) (v : py.Obj → py.Obj)
      (vs : List (py.Obj → py.Obj))
      → ((j : ℕ) (b : Bytes) → f (i + j) b ≡ value_at (v ∷ vs) j (text b))
      → (j : ℕ) (b : Bytes) → f (i + 1 + j) b ≡ value_at vs j (text b)
  behind_first i f text v vs h j b =
      let same : i + 1 + j ≡ i + suc j = omega arith in ap (λ k. f k b) same ∙ h (suc j) b

  field_values-column_values :
      (m : Maker py.Obj) (delim n i : ℕ) (f : ℕ → Bytes → py.Obj) (text : Bytes → py.Obj)
      (vs : List (py.Obj → py.Obj)) (xs : List (Option Bytes))
      → m.none_obj ≡ py.none_obj
      → length xs ≡ length vs
      → ((j : ℕ) (b : Bytes) → f (i + j) b ≡ value_at vs j (text b))
      → field_values m delim (suc n) f xs i ≡ column_values vs text xs
  field_values-column_values m delim n i f text [] [] none_is same h = refl
  field_values-column_values m delim n i f text [] (x ∷ xs) none_is same h = absurd (omega arith)
  field_values-column_values m delim n i f text (v ∷ vs) [] none_is same h = refl
  field_values-column_values m delim n i f text (v ∷ vs) (none ∷ xs) none_is same h =
      let behind =
        field_values-column_values m delim n (i + 1) f text vs xs none_is (omega arith)
          (behind_first i f text v vs h) in
      rw (none_is, suc_nonzero n, behind) refl
  field_values-column_values m delim n i f text (v ∷ vs) (some b ∷ xs) none_is same h =
      let behind =
        field_values-column_values m delim n (i + 1) f text vs xs none_is (omega arith)
          (behind_first i f text v vs h) in
      rw (at_first i f text v vs h b, suc_nonzero n, behind) refl

module _ (py : Python) (g : Settings py.Obj) (garbage : Bytes) where
  column-cast :
      (encoding : ℕ) (fs : List (Option py.Obj)) (vs : List (py.Obj → py.Obj)) (i : ℕ) (o : py.Obj)
      → CastsTo py fs vs
      → i < length fs
      → external_field py g garbage encoding (column_casts fs) i o ≡ ok (value_at vs i o)
  column-cast e [] vs i o h k = absurd (omega arith)
  column-cast e (none ∷ fs) [] i o h k = elim h [ ]
  column-cast e (some f ∷ fs) [] i o h k = elim h [ ]
  column-cast e (none ∷ fs) (v ∷ vs) zero o h k = ap ok (sym (h.0 o))
  column-cast e (some f ∷ fs) (v ∷ vs) zero o h k = rw (h.0 o) refl
  column-cast e (none ∷ fs) (v ∷ vs) (suc i) o h k = column-cast e fs vs i o h.1 (omega arith)
  column-cast e (some f ∷ fs) (v ∷ vs) (suc i) o h k = column-cast e fs vs i o h.1 (omega arith)

  from_zero :
      (vs : List (py.Obj → py.Obj)) (j : ℕ) (b : Bytes)
      → value_at vs (0 + j) (py.bytes_of b) ≡ value_at vs j (py.bytes_of b)
  from_zero vs j b =
      let same : 0 + j ≡ j = omega arith in ap (λ k. value_at vs k (py.bytes_of b)) same

  ascii_text : (b : Bytes) → external_text py g garbage g.encoding_ascii b ≡ py.bytes_of b
  unfolding external_text
  ascii_text b = rw (==_refl g.encoding_ascii) refl

  converts :
      (delim : ℕ) (f : Option py.Obj) (fs : List (Option py.Obj)) (vs : List (py.Obj → py.Obj))
      → CastsTo py (f ∷ fs) vs
      → (i c : ℕ) (b : Bytes)
      → IsColumn
          (record_maker py g garbage g.encoding_ascii none (column_casts (f ∷ fs)))
          delim
          (length (f ∷ fs))
          i
      → (record_maker py g garbage g.encoding_ascii none (column_casts (f ∷ fs))).convert i c b
        ≡ ok (value_at vs i (py.bytes_of b))
  unfolding record_maker cast_field
  converts delim f fs vs h i c b (inl k) = absurd (omega arith)
  converts delim f fs vs h i c b (inr k) =
      rw (ascii_text b, column-cast g.encoding_ascii (f ∷ fs) vs i (py.bytes_of b) h k) refl

  -- For a printed row of one or more texts and NULLs, and a list of as many casts, each None or a
  -- callable that returns a value for every text, cast_record() of the module returns the tuple of
  -- what the cast of each column makes of its text, and None for NULL.
  pub pg_cast_record-columns :
      (delim : ℕ) (f : Option py.Obj) (fs : List (Option py.Obj)) (vs : List (py.Obj → py.Obj))
      (x : Option Bytes) (xs : List (Option Bytes))
      → IsDelimiter delim
      → CastsTo py (f ∷ fs) vs
      → length (x ∷ xs) ≡ length (f ∷ fs)
      → pg_cast_record py g garbage
          (byte_string (printed_record delim (x ∷ xs)))
          (cast_items (f ∷ fs))
          delim
        ≡ gives (py.tuple_of (column_values py vs py.bytes_of (x ∷ xs)))
  unfolding pg_cast_record string_argument record_casts cast_record_value record_maker
  pg_cast_record-columns delim f fs vs x xs d h same =
      let m = record_maker py g garbage g.encoding_ascii none (column_casts (f ∷ fs)) in
      let value : ℕ → Bytes → py.Obj = λ i b. value_at vs i (py.bytes_of b) in
      let widths : length (x ∷ xs) ≡ length vs = same ∙ length-CastsTo py (f ∷ fs) vs h in
      rw
        (
          cast_record-printed m value delim (length (f ∷ fs)) x xs (converts delim f fs vs h) d
              (inr same),
          field_values-column_values py m delim (length fs) 0 value py.bytes_of vs (x ∷ xs) refl
              widths (from_zero vs),
        )
        refl
