-- ===== src/Record/RoundTrip.antt =====
-- What PostgreSQL prints for a composite value is parsed back: NULL is nothing, and a text is
-- quoted with its quotes and backslashes doubled.
use py_gre_sql.Base.{
  ℕ, zero, suc, ◌+◌, ◌≤◌, ◌<◌, ◌≡◌, ◌≢◌, refl, ◌∙◌, true, false, ◌||◌, [], ◌∷◌, ◌++◌, Bytes, List,
  Option, none, some, ◌==◌, if◌then◌else◌, length, arith, ◌⊎◌, append_assoc,
}
use py_gre_sql.Outcome.{Outcome, ok}
use py_gre_sql.Scan.{skip_blanks}
use py_gre_sql.Record.{
  record_delimiter, plain, quoted, plain_move, move, Field, ends_field, scan_field, copy_field,
  whole_field, field_text, Maker, Fields, after_field, convert_field, fields, end_record,
  open_record, cast_record,
}

-- each of these stands in front of `rest`
pub doubled : Bytes → Bytes → Bytes
doubled [] rest = rest
doubled (c ∷ b) rest = let r = c ∷ doubled b rest in if c == b'"' || c == b'\\' then c ∷ r else r

pub shown_field : Option Bytes → Bytes → Bytes
shown_field none rest = rest
shown_field (some b) rest = b'"' ∷ doubled b (b'"' ∷ rest)

pub shown_fields : ℕ → List (Option Bytes) → Bytes → Bytes
shown_fields delim [] rest = rest
shown_fields delim (x ∷ []) rest = shown_field x rest
shown_fields delim (x ∷ y ∷ xs) rest = shown_field x (delim ∷ shown_fields delim (y ∷ xs) rest)

pub printed_record : ℕ → List (Option Bytes) → Bytes
printed_record delim xs = b'(' ∷ shown_fields delim xs (b')' ∷ [])

-- a delimiter that no other part of the syntax uses
pub record IsDelimiter (delim : ℕ) : Type 0 where
  pub nonzero : delim ≢ 0
  pub not_open : delim ≢ b'('
  pub not_close : delim ≢ b')'
  pub not_backslash : delim ≢ b'\\'
  pub not_quote : delim ≢ b'"'

-- the end of a field: the delimiter or the right parenthesis
abbrev AtEnd : ℕ → ℕ → Type 0
AtEnd delim d = (ends_field delim d ≡ true) × (d ≢ b'"')

scan_field-doubled :
    (delim d : ℕ) (b rest : Bytes)
    → AtEnd delim d
    → scan_field delim quoted (doubled b (b'"' ∷ d ∷ rest))
      ≡ record { taken = doubled b (b'"' ∷ []); size = length b; rest = d ∷ rest }
unfolding scan_field move plain_move doubled
scan_field-doubled delim d [] rest h = rw h.0 (ground arith)
scan_field-doubled delim d (c ∷ b) rest h = ground (arith, scan_field-doubled delim d b rest h)

copy_field-doubled : (b : Bytes) → copy_field quoted (doubled b (b'"' ∷ [])) ≡ b
unfolding copy_field move plain_move doubled
copy_field-doubled [] = refl
copy_field-doubled (c ∷ b) = ground (arith, copy_field-doubled b)

length-doubled : (b rest : Bytes) → length b + length rest ≤ length (doubled b rest)
unfolding doubled
length-doubled [] rest = omega arith
length-doubled (c ∷ b) rest = ground (arith, length-doubled b rest)

-- what the parser finds of a printed text
abbrev text_field : Bytes → ℕ → Bytes → Field
text_field b d rest = record {
  taken = b'"' ∷ doubled b (b'"' ∷ []);
  size = length b;
  rest = d ∷ rest;
}

whole_field-shown :
    (delim d : ℕ) (b rest : Bytes)
    → AtEnd delim d
    → whole_field delim b'"' (doubled b (b'"' ∷ d ∷ rest)) ≡ text_field b d rest
unfolding whole_field
whole_field-shown delim d b rest h = rw (scan_field-doubled delim d b rest h)

field_text-text_field : (b : Bytes) (d : ℕ) (rest : Bytes) → field_text (text_field b d rest) ≡ ok b
unfolding field_text
field_text-text_field b d rest =
    let copied : copy_field plain (b'"' ∷ doubled b (b'"' ∷ [])) ≡ b =
      unfold copy_field move plain_move in copy_field-doubled b in
    rw copied (ground (arith, length-doubled b (b'"' ∷ [])))

quote_not_end : (delim : ℕ) → IsDelimiter delim → ends_field delim b'"' ≡ false
quote_not_end delim i = ground arith

close_end : (delim : ℕ) → AtEnd delim b')'
close_end delim = (refl, omega arith)

delim_end : (delim : ℕ) → IsDelimiter delim → AtEnd delim delim
delim_end delim i = ground arith

module _ {Obj : Type 0} (m : Maker Obj) (delim size : ℕ) where
  abbrev next_column : ℕ → ℕ
  next_column i = if size == 0 then i else i + 1

  abbrev pub columns_behind : List (Option Bytes) → ℕ → ℕ
  columns_behind [] i = i
  columns_behind (x ∷ xs) i = columns_behind xs (next_column i)

  abbrev pub field_value : (ℕ → Bytes → Obj) → ℕ → Option Bytes → Obj
  field_value f i none = m.none_obj
  field_value f i (some b) = f i b

  -- the objects of the fields, where a text `b` of column `i` converts to `f i b`
  abbrev pub field_values : (ℕ → Bytes → Obj) → List (Option Bytes) → ℕ → List Obj
  field_values f [] i = []
  field_values f (x ∷ xs) i = field_value f i x ∷ field_values f xs (next_column i)

  -- either any number of columns is expected, or the ones from column `i` on
  abbrev Expects : List (Option Bytes) → ℕ → Type 0
  Expects xs i = (size ≡ 0) ⊎ (i + length xs ≡ size)

  more_expected :
      (i : ℕ) (x y : Option Bytes) (xs : List (Option Bytes))
      → Expects (x ∷ y ∷ xs) i
      → (size ≡ 0) ⊎ (i + 1 < size)
  more_expected i x y xs k = ground arith

  Expects-next :
      (i : ℕ) (x y : Option Bytes) (xs : List (Option Bytes))
      → Expects (x ∷ y ∷ xs) i
      → Expects (y ∷ xs) (next_column i)
  Expects-next i x y xs k = ground arith

  -- a column that the parser may reach
  abbrev pub IsColumn : ℕ → Type 0
  IsColumn i = (size ≡ 0) ⊎ (i < size)

  first-IsColumn :
      (i : ℕ) (x : Option Bytes) (xs : List (Option Bytes)) → Expects (x ∷ xs) i → IsColumn i
  first-IsColumn i x xs k = ground arith

  module _ (f : ℕ → Bytes → Obj)
      (converts : (i c : ℕ) (b : Bytes) → IsColumn i → m.convert i c b ≡ ok (f i b))
      (ok_delim : IsDelimiter delim) where
    -- one printed field, before the end `d` of the field
    fields-shown :
        (fuel i d : ℕ) (x : Option Bytes) (rest : Bytes) (items : List Obj)
        → AtEnd delim d
        → IsColumn i
        → fields m delim size (suc fuel) (shown_field x (d ∷ rest)) items i
          ≡ after_field m delim size
              (fields m delim size fuel)
              (d ∷ rest)
              (items ++ (field_value f i x ∷ []))
              i
    unfolding fields shown_field
    fields-shown fuel i d none rest items h c = rw h.0
    fields-shown fuel i d (some b) rest items h c = rw (quote_not_end delim ok_delim) (
        rw (whole_field-shown delim d b rest h)
          (unfold convert_field in rw (field_text-text_field b d rest) (rw (converts i d b c))))

    after_field_last :
        (next : Bytes → List Obj → ℕ → Outcome (Fields Obj)) (s : Bytes) (items : List Obj) (i : ℕ)
        → after_field m delim size next (b')' ∷ s) items i
          ≡ ok (record { s = b')' ∷ s; items = items; column = next_column i })
    unfolding after_field
    after_field_last next s items i = ground (arith, ok_delim.not_close)

    after_field_delim :
        (next : Bytes → List Obj → ℕ → Outcome (Fields Obj)) (s : Bytes) (items : List Obj) (i : ℕ)
        → (size ≡ 0) ⊎ (i + 1 < size)
        → after_field m delim size next (delim ∷ s) items i ≡ next s items (next_column i)
    unfolding after_field
    after_field_delim next s items i h = ground arith

    fields-shown_fields :
        (fuel i : ℕ) (x : Option Bytes) (xs : List (Option Bytes)) (items : List Obj)
        → length xs < fuel
        → Expects (x ∷ xs) i
        → fields m delim size fuel (shown_fields delim (x ∷ xs) (b')' ∷ [])) items i
          ≡ ok (record {
            s = b')' ∷ [];
            items = items ++ field_values f (x ∷ xs) i;
            column = columns_behind (x ∷ xs) i;
          })
    unfolding shown_fields
    fields-shown_fields zero i x xs items h k = absurd (omega arith)
    fields-shown_fields (suc fuel) i x [] items h k =
        fields-shown fuel i b')' x [] items (close_end delim) (first-IsColumn i x [] k)
        ∙ after_field_last _ [] _ i
    fields-shown_fields (suc fuel) i x (y ∷ xs) items h k =
        fields-shown fuel i delim x _ items (delim_end delim ok_delim)
          (first-IsColumn i x (y ∷ xs) k)
        ∙ after_field_delim _ _ _ i (more_expected i x y xs k)
        ∙ fields-shown_fields fuel (next_column i) y xs (items ++ (field_value f i x ∷ []))
            (omega arith) (Expects-next i x y xs k)
        ∙ rw append_assoc

length-shown_fields :
    (delim : ℕ) (xs : List (Option Bytes)) (rest : Bytes)
    → length xs + length rest ≤ length (shown_fields delim xs rest) + 1
unfolding shown_fields shown_field
length-shown_fields delim [] rest = omega arith
length-shown_fields delim (none ∷ []) rest = omega arith
length-shown_fields delim (some b ∷ []) rest = omega (arith, length-doubled b (b'"' ∷ rest))
length-shown_fields delim (none ∷ y ∷ xs) rest =
    omega (arith, length-shown_fields delim (y ∷ xs) rest)
length-shown_fields delim (some b ∷ y ∷ xs) rest =
    let tail = shown_fields delim (y ∷ xs) rest in
    omega (arith, length-doubled b (b'"' ∷ delim ∷ tail), length-shown_fields delim (y ∷ xs) rest)

columns_behind_any :
    {Obj : Type 0} (m : Maker Obj) (delim size : ℕ) (xs : List (Option Bytes)) (i : ℕ)
    → (size ≡ 0) ⊎ (i + length xs ≡ size)
    → (size ≡ 0) ⊎ (columns_behind m delim size xs i ≡ size)
columns_behind_any m delim size [] i k = ground arith
columns_behind_any m delim size (x ∷ xs) i k =
    ground (arith, columns_behind_any m delim size xs (if size == 0 then i else i + 1))

record_delimiter_lem : (delim : ℕ) → IsDelimiter delim → record_delimiter delim ≡ ok delim
unfolding record_delimiter
record_delimiter_lem delim i = ground arith

end_record_lem :
    {Obj : Type 0} (size column : ℕ) (items : List Obj)
    → (size ≡ 0) ⊎ (column ≡ size)
    → end_record size (record { s = b')' ∷ []; items = items; column = column }) ≡ ok items
unfolding end_record skip_blanks
end_record_lem size column items h = ground arith

-- `cast_record` reads back what is printed: a record of one or more texts and NULLs, printed with
-- a delimiter that has no other meaning, gives what the conversion makes of its texts, and None
-- for NULL, if the number of its fields is what the caller expects or the caller expects any.
pub cast_record-printed :
    {Obj : Type 0} (m : Maker Obj) (f : ℕ → Bytes → Obj) (delim size : ℕ) (x : Option Bytes)
    (xs : List (Option Bytes))
    → ((i c : ℕ) (b : Bytes) → IsColumn m delim size i → m.convert i c b ≡ ok (f i b))
    → IsDelimiter delim
    → (size ≡ 0) ⊎ (length (x ∷ xs) ≡ size)
    → cast_record m delim size (printed_record delim (x ∷ xs))
      ≡ ok (field_values m delim size f (x ∷ xs) 0)
unfolding cast_record printed_record open_record skip_blanks
cast_record-printed m f delim size x xs converts i k =
    let t = shown_fields delim (x ∷ xs) (b')' ∷ []) in
    let expected : (size ≡ 0) ⊎ (0 + length (x ∷ xs) ≡ size) = ground arith in
    rw (record_delimiter_lem delim i) (
      rw
        (fields-shown_fields m delim size f converts i (suc (length t)) 0 x xs []
          (omega (arith, length-shown_fields delim (x ∷ xs) (b')' ∷ []))) expected)
        (end_record_lem size _ _ (columns_behind_any m delim size (x ∷ xs) 0 expected)))
