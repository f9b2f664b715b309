-- ===== src/Record.antt =====
-- `cast_record` of pginternal.c, the parser of PostgreSQL's syntax for composite values, over the
-- conversion of the fields. `size` is the number of columns that the caller expects, 0 for any.
pub mod Safety
pub mod RoundTrip
pub mod Cast
mod Tests
use py_gre_sql.Base.{
  ℕ, zero, suc, ◌+◌, Bool, true, false, not, ◌||◌, ◌&&◌, List, [], ◌∷◌, ◌++◌, Bytes, Option, none,
  some, ◌==◌, leb, ltb, if◌then◌else◌, length,
}
use py_gre_sql.Outcome.{
  Outcome, ok, err, fault, out_of_fuel, ◌>>=◌, bad_record_delimiter, no_left_parenthesis,
  too_many_columns, too_few_columns, unexpected_record_end, characters_after_record,
  buffer_overflow, uninitialised,
}
use py_gre_sql.Scan.{skip_blanks}

pub record_delimiter : ℕ → Outcome ℕ
record_delimiter delim =
    if delim == 0
    then ok b','
    else if delim == b'(' || delim == b')' || delim == b'\\'
    then err bad_record_delimiter
    else ok delim

-- Where a scan of a field stands: outside of quotes, inside, behind a quote that was met inside,
-- or behind a backslash.
pub data Mode : Type 0 where
  plain quoted quote_met : Mode
  escaping_plain escaping_quoted : Mode

-- one byte: the next mode, and whether the byte counts for the field's text
pub data Move : Type 0 where
  skip : Mode → Move
  keep : Mode → Move
  stop : Move

-- a byte outside of quotes, where `ends` says that it ends the field
pub plain_move : Bool → ℕ → Move
plain_move ends c =
    if ends
    then stop
    else if c == b'"'
    then skip quoted
    else if c == b'\\'
    then skip escaping_plain
    else keep plain

pub move : Bool → Mode → ℕ → Move
move ends plain c = plain_move ends c
move ends quoted c =
    if c == b'"' then skip quote_met else if c == b'\\' then skip escaping_quoted else keep quoted
move ends quote_met c = if c == b'"' then keep quoted else plain_move ends c
move ends escaping_plain c = keep plain
move ends escaping_quoted c = keep quoted

-- What the first pass over a field finds: the bytes that it passes, how many of them count
-- (`esize`), and where it stops.
pub record Field : Type 0 where
  pub taken : Bytes
  pub size : ℕ
  pub rest : Bytes

abbrev pub ends_field : ℕ → ℕ → Bool
ends_field delim c = c == b')' || c == delim

abbrev pub scanned_by : Move → ℕ → Bytes → (Mode → Field) → Field
scanned_by stop c s more = record { taken = []; size = 0; rest = c ∷ s }
scanned_by (skip next) c s more = record {
  taken = c ∷ (more next).taken;
  size = (more next).size;
  rest = (more next).rest;
}
scanned_by (keep next) c s more = record {
  taken = c ∷ (more next).taken;
  size = suc (more next).size;
  rest = (more next).rest;
}

pub scan_field : ℕ → Mode → Bytes → Field
scan_field delim mode [] = record { taken = []; size = 0; rest = [] }
scan_field delim mode (c ∷ s) =
    scanned_by (move (ends_field delim c) mode c) c s (λ next. scan_field delim next s)

-- The second pass, which writes the bytes that count; nothing ends it but the end of the field.
abbrev pub copied_by : Move → ℕ → (Mode → Bytes) → Bytes
copied_by stop c more = []
copied_by (skip next) c more = more next
copied_by (keep next) c more = c ∷ more next

pub copy_field : Mode → Bytes → Bytes
copy_field mode [] = []
copy_field mode (c ∷ t) = copied_by (move false mode c) c (λ next. copy_field next t)

-- a field that begins with `c`: the first pass begins behind a left quote
pub whole_field : ℕ → ℕ → Bytes → Field
whole_field delim c s =
    if c == b'"'
    then (let f = scan_field delim quoted s in record f { taken = c ∷ f.taken })
    else scan_field delim plain (c ∷ s)

-- The text of a field: as it stands if all its bytes count, and else copied to a buffer of `size`
-- bytes, all of which the conversion reads.
pub field_text : Field → Outcome Bytes
field_text f =
    let copy = copy_field plain f.taken in
    if length f.taken == f.size
    then ok f.taken
    else if ltb f.size (length copy)
    then fault buffer_overflow
    else if ltb (length copy) f.size
    then fault uninitialised
    else ok copy

-- The objects that the parser makes. `convert` gets the column and the byte behind the text.
pub record Maker (Obj : Type 0) : Type 0 where
  pub none_obj : Obj
  pub convert : ℕ → ℕ → Bytes → Outcome Obj

-- where the loop over the fields stops: the pointer, the fields so far and the column
pub record Fields (Obj : Type 0) : Type 0 where
  pub s : Bytes
  pub items : List Obj
  pub column : ℕ

module _ {Obj : Type 0} (m : Maker Obj) (delim size : ℕ) where
  -- behind a field: `if (len) ++i; if (*s != delim) break;` and the check of the columns
  pub after_field :
      (Bytes → List Obj → ℕ → Outcome (Fields Obj)) → Bytes → List Obj → ℕ → Outcome (Fields Obj)
  after_field next [] items i = ok (record { s = []; items = items; column = i })
  after_field next (c ∷ s) items i =
      let column = if size == 0 then i else i + 1 in
      if not (c == delim)
      then ok (record { s = c ∷ s; items = items; column = column })
      else if not (size == 0) && leb size column
      then err too_many_columns
      else next s items column

  -- a field that is not empty
  pub convert_field :
      (Bytes → List Obj → ℕ → Outcome (Fields Obj)) → Field → List Obj → ℕ → Outcome (Fields Obj)
  convert_field next f items i = elim f.rest [
    | [] ↦ ok (record { s = []; items = items; column = i })
    | c ∷ s ↦ field_text f >>= λ b.
        m.convert i c b >>= λ v. after_field next (c ∷ s) (items ++ (v ∷ [])) i
  ]

  -- `while (++s != end)`, from behind the left parenthesis or a delimiter
  pub fields : ℕ → Bytes → List Obj → ℕ → Outcome (Fields Obj)
  fields zero s items i = out_of_fuel
  fields (suc fuel) [] items i = ok (record { s = []; items = items; column = i })
  fields (suc fuel) (c ∷ s) items i =
      let empty = after_field (fields fuel) (c ∷ s) (items ++ (m.none_obj ∷ [])) i in
      let full = convert_field (fields fuel) (whole_field delim c s) items i in
      if ends_field delim c then empty else full

-- behind the loop: the right parenthesis, blanks, the end, and the number of columns
pub end_record : {Obj : Type 0} → ℕ → Fields Obj → Outcome (List Obj)
end_record size r = elim r.s [
  | [] ↦ err unexpected_record_end
  | c ∷ s ↦ if not (c == b')') then err unexpected_record_end else (elim (skip_blanks s) [
    | _ ∷ _ ↦ err characters_after_record
    | [] ↦ if not (size == 0) && ltb r.column size then err too_few_columns else ok r.items
  ])
]

pub open_record : Bytes → Outcome Bytes
open_record [] = err no_left_parenthesis
open_record (c ∷ s) = if c == b'(' then ok s else err no_left_parenthesis

pub cast_record : {Obj : Type 0} → Maker Obj → ℕ → ℕ → Bytes → Outcome (List Obj)
cast_record m delim₀ size text = do
  delim ← record_delimiter delim₀
  s ← open_record (skip_blanks text)
  r ← fields m delim size (suc (length s)) s [] 0
  end_record size r
