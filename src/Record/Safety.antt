-- ===== src/Record/Safety.antt =====
-- The two passes of `cast_record` over a field agree, so that its buffer is filled exactly, and
-- its loop ends.
use py_gre_sql.Base.{
  ℕ, zero, suc, ◌+◌, ◌≤◌, ◌<◌, ◌≡◌, refl, Bool, true, false, [], ◌∷◌, ◌++◌, Bytes, List, ◌==◌,
  if◌then◌else◌, length, arith, Bool-cases, inl, inr, ap,
}
use py_gre_sql.Outcome.{Outcome, ok, Ensures, bind-Ensures, Fault, ◌>>=◌}
use py_gre_sql.Scan.{skip_blanks}
use py_gre_sql.Record.{
  record_delimiter, Mode, plain, quoted, quote_met, escaping_plain, escaping_quoted, Move, skip,
  keep, stop, plain_move, move, Field, ends_field, scanned_by, scan_field, copy_field, whole_field,
  field_text, Maker, Fields, after_field, convert_field, fields, end_record, open_record,
  cast_record,
}

-- how the moves of the two passes over one byte compare
data SameMove : Move → Move → Type 0 where
  stopped : {n : Move} → SameMove stop n
  skipped : (next : Mode) → SameMove (skip next) (skip next)
  kept : (next : Mode) → SameMove (keep next) (keep next)

plain_move-SameMove : (ends : Bool) (c : ℕ) → SameMove (plain_move ends c) (plain_move false c)
unfolding plain_move
plain_move-SameMove true c = stopped
plain_move-SameMove false c = elim (Bool-cases (c == b'"')) [
  | inl e ↦ rw e (skipped quoted)
  | inr e ↦ elim (Bool-cases (c == b'\\')) [
    | inl e' ↦ rw e (rw e' (skipped escaping_plain))
    | inr e' ↦ rw e (rw e' (kept plain))
  ]
]

move-SameMove :
    (ends : Bool) (mode : Mode) (c : ℕ) → SameMove (move ends mode c) (move false mode c)
unfolding move
move-SameMove ends plain c = plain_move-SameMove ends c
move-SameMove ends quoted c = elim (Bool-cases (c == b'"')) [
  | inl e ↦ rw e (skipped quote_met)
  | inr e ↦ elim (Bool-cases (c == b'\\')) [
    | inl e' ↦ rw e (rw e' (skipped escaping_quoted))
    | inr e' ↦ rw e (rw e' (kept quoted))
  ]
]
move-SameMove ends quote_met c = elim (Bool-cases (c == b'"')) [
  | inl e ↦ rw e (kept quoted)
  | inr e ↦ rw e (plain_move-SameMove ends c)
]
move-SameMove ends escaping_plain c = kept plain
move-SameMove ends escaping_quoted c = kept quoted

agree :
    (mode : Mode) (c : ℕ) (s : Bytes) (k : Mode → Field) {a b : Move}
    → SameMove a b
    → move false mode c ≡ b
    → ((n : Mode) → length (copy_field n (k n).taken) ≡ (k n).size)
    → length (copy_field mode (scanned_by a c s k).taken) ≡ (scanned_by a c s k).size
unfolding copy_field
agree mode c s k stopped e h = refl
agree mode c s k (skipped next) e h = rw e (h next)
agree mode c s k (kept next) e h = rw e (ap suc (h next))

-- The second pass writes as many bytes as the first has counted.
pub length-copy_field :
    (delim : ℕ) (mode : Mode) (s : Bytes)
    → length (copy_field mode (scan_field delim mode s).taken) ≡ (scan_field delim mode s).size
unfolding scan_field
length-copy_field delim mode [] = unfold copy_field in refl
length-copy_field delim mode (c ∷ s) =
    agree mode c s (λ n. scan_field delim n s) (move-SameMove (ends_field delim c) mode c) refl
      (λ n. length-copy_field delim n s)

length-copy-whole_field :
    (delim c : ℕ) (s : Bytes)
    → length (copy_field plain (whole_field delim c s).taken) ≡ (whole_field delim c s).size
unfolding whole_field
length-copy-whole_field delim c s = elim (Bool-cases (c == b'"')) [
  | inl e ↦ rw e (unfold copy_field move plain_move in rw e (length-copy_field delim quoted s))
  | inr e ↦ rw e (length-copy_field delim plain (c ∷ s))
]

field_text-Ensures :
    (Q : Fault → Type 0) (f : Field)
    → length (copy_field plain f.taken) ≡ f.size
    → Ensures (λ (b : Bytes). Unit) Q (field_text f)
unfolding field_text
field_text-Ensures Q f h = ground arith

length-scan_field :
    (delim : ℕ) (mode : Mode) (s : Bytes) → length (scan_field delim mode s).rest ≤ length s
unfolding scan_field
length-scan_field delim mode [] = omega arith
length-scan_field delim mode (c ∷ s) =
    by_move (move (ends_field delim c) mode c) (λ n. length-scan_field delim n s)
  where
    by_move :
        (a : Move)
        → ((n : Mode) → length (scan_field delim n s).rest ≤ length s)
        → length (scanned_by a c s (λ n. scan_field delim n s)).rest ≤ suc (length s)
    by_move stop h = omega arith
    by_move (skip n) h = omega (arith, h n)
    by_move (keep n) h = omega (arith, h n)

length-whole_field :
    (delim c : ℕ) (s : Bytes) → length (whole_field delim c s).rest ≤ suc (length s)
unfolding whole_field
length-whole_field delim c s = elim (Bool-cases (c == b'"')) [
  | inl e ↦ rw e (omega (arith, length-scan_field delim quoted s))
  | inr e ↦ rw e (length-scan_field delim plain (c ∷ s))
]

module _ {Obj : Type 0} (m : Maker Obj) (delim size : ℕ) (Q : Fault → Type 0)
    (fine : (i c : ℕ) (b : Bytes) → Ensures (λ (v : Obj). Unit) Q (m.convert i c b)) where
  abbrev Fine : Outcome (Fields Obj) → Type 0
  Fine = Ensures (λ r. Unit) Q

  -- `next` is fine on what is shorter than `limit`
  abbrev FineBelow : ℕ → (Bytes → List Obj → ℕ → Outcome (Fields Obj)) → Type 0
  FineBelow limit next =
      (s : Bytes) (items : List Obj) (i : ℕ) → length s < limit → Fine (next s items i)

  after_field-Fine :
      (limit : ℕ) (next : Bytes → List Obj → ℕ → Outcome (Fields Obj)) (s : Bytes)
      (items : List Obj) (i : ℕ)
      → FineBelow limit next
      → length s ≤ limit
      → Fine (after_field m delim size next s items i)
  unfolding after_field
  after_field-Fine limit next [] items i h k = tt
  after_field-Fine limit next (c ∷ s) items i h k =
      ground (arith, h s items (if size == 0 then i else i + 1))

  convert_field-Fine :
      (limit : ℕ) (next : Bytes → List Obj → ℕ → Outcome (Fields Obj)) (f : Field)
      (items : List Obj) (i : ℕ)
      → FineBelow limit next
      → length f.rest ≤ limit
      → length (copy_field plain f.taken) ≡ f.size
      → Fine (convert_field m delim size next f items i)
  unfolding convert_field
  convert_field-Fine limit next f items i h k e = go f.rest k
    where
      go :
          (rest : Bytes)
          → length rest ≤ limit
          → Fine (elim rest [
            | [] ↦ ok (record { s = []; items = items; column = i })
            | c ∷ s ↦ field_text f >>= λ b.
                m.convert i c b >>= λ v. after_field m delim size next (c ∷ s) (items ++ (v ∷ [])) i
          ])
      go [] k = tt
      go (c ∷ s) k = bind-Ensures _ _ Q (field_text f) _ (field_text-Ensures Q f e) λ b _.
          bind-Ensures _ _ Q (m.convert i c b) _ (fine i c b)
            λ v _. after_field-Fine limit next (c ∷ s) (items ++ (v ∷ [])) i h k

  fields-Fine :
      (fuel : ℕ) (s : Bytes) (items : List Obj) (i : ℕ)
      → length s < fuel
      → Fine (fields m delim size fuel s items i)
  unfolding fields
  fields-Fine zero s items i h = absurd (omega arith)
  fields-Fine (suc fuel) [] items i h = tt
  fields-Fine (suc fuel) (c ∷ s) items i h = elim (Bool-cases (ends_field delim c)) [
    | inl e ↦ rw e (
        after_field-Fine fuel (fields m delim size fuel) (c ∷ s) (items ++ (m.none_obj ∷ [])) i
          (fields-Fine fuel) (omega arith))
    | inr e ↦ rw e (
        convert_field-Fine fuel (fields m delim size fuel) (whole_field delim c s) items i
          (fields-Fine fuel) (omega (arith, length-whole_field delim c s))
          (length-copy-whole_field delim c s))
  ]

end_record-Ensures :
    {Obj : Type 0} (Q : Fault → Type 0) (size : ℕ) (r : Fields Obj)
    → Ensures (λ (l : List Obj). Unit) Q (end_record size r)
unfolding end_record
end_record-Ensures Q size r = ground arith

open_record-Ensures :
    (Q : Fault → Type 0) (s : Bytes) → Ensures (λ (t : Bytes). Unit) Q (open_record s)
unfolding open_record
open_record-Ensures Q [] = tt
open_record-Ensures Q (c ∷ s) = ground arith

record_delimiter-Ensures :
    (Q : Fault → Type 0) (delim : ℕ) → Ensures (λ (d : ℕ). Unit) Q (record_delimiter delim)
unfolding record_delimiter
record_delimiter-Ensures Q delim = ground arith

-- With any text and options, `cast_record` returns the fields, raises an error, or ends as one of
-- the conversions that it calls does: it needs no more rounds than the text has bytes, does not
-- leave the text, and fills the buffer of each field exactly.
pub cast_record-Ensures :
    {Obj : Type 0} (m : Maker Obj) (Q : Fault → Type 0) (delim size : ℕ) (text : Bytes)
    → ((i c : ℕ) (b : Bytes) → Ensures (λ (v : Obj). Unit) Q (m.convert i c b))
    → Ensures (λ (l : List Obj). Unit) Q (cast_record m delim size text)
unfolding cast_record
cast_record-Ensures m Q delim size text fine =
    bind-Ensures _ _ Q (record_delimiter delim) _ (record_delimiter-Ensures Q delim) λ d _.
      bind-Ensures _ _ Q (open_record (skip_blanks text)) _
        (open_record-Ensures Q (skip_blanks text))
        λ s _.
          bind-Ensures _ _ Q (fields m d size (suc (length s)) s [] 0) _
            (fields-Fine m d size Q fine (suc (length s)) s [] 0 (omega arith))
            λ r _. end_record-Ensures Q size r
