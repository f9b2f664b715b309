-- ===== src/Hstore.antt =====
-- `cast_hstore` of pginternal.c, the parser of the text of hstore values: the keys and values in
-- the order in which they are put into the dictionary, `none` for NULL. The text ends with a zero
-- byte, which the code reads in one place.
pub mod Safety
pub mod RoundTrip
pub mod Unwritten
mod Tests
use py_gre_sql.Base.{
  ℕ, zero, suc, ◌-◌, Bool, true, false, not, ◌||◌, List, [], ◌∷◌, ◌++◌, Bytes, Option, none, some,
  ◌==◌, ltb, if◌then◌else◌, length,
}
use py_gre_sql.Outcome.{
  Outcome, ok, err, fault, out_of_fuel, ◌>>=◌, CastError, unterminated_quote, missing_key,
  missing_value, missing_entry, characters_after_key, characters_after_value, buffer_overflow,
  uninitialised,
}
use py_gre_sql.Scan.{skip_blanks, Scanned, scan, str_is_null}
use py_gre_sql.Quoting.{at_quote}

-- where a scan of an unquoted key or value stops
at_key_end : ℕ → Bool
at_key_end c = c == b'=' || c == b' '

at_value_end : ℕ → Bool
at_value_end c = c == b',' || c == b' '

-- The copy without escapes, which stops at a last backslash; the flag says that a backslash has
-- just been passed.
pub strip : Bool → Bytes → Bytes
strip after [] = []
strip true (c ∷ t) = c ∷ strip false t
strip false (c ∷ t) = let r = strip (c == b'\\') t in if c == b'\\' then r else c ∷ r

-- The `size = s - key - key_esc` bytes that are cast, copied to a buffer of that size if there
-- are escapes.
pub stripped : Scanned → Outcome Bytes
stripped r =
    let copy = strip false r.raw in
    let size = length r.raw - r.escapes in
    if r.escapes == 0
    then ok r.raw
    else if ltb size (length copy)
    then fault buffer_overflow
    else if ltb (length copy) size
    then fault uninitialised
    else ok copy

-- a key or a value, `none` for NULL, and the text behind it
abbrev pub Part : Type 0
Part = Option Bytes × Bytes

pub quoted_part : Bytes → Outcome Part
quoted_part s =
    let r = scan at_quote false s in
    elim r.rest [ [] ↦ err unterminated_quote | _ ∷ rest ↦ stripped r >>= λ b. ok (some b, rest) ]

pub unquoted_key : Bytes → Outcome Part
unquoted_key s =
    let r = scan at_key_end false s in
    if length r.raw == 0 then err missing_key else (stripped r >>= λ b. ok (some b, r.rest))

pub unquoted_value : Bytes → Outcome Part
unquoted_value s =
    let r = scan at_value_end false s in
    if length r.raw == 0
    then err missing_value
    else if str_is_null r.raw
    then ok (none, r.rest)
    else (stripped r >>= λ b. ok (some b, r.rest))

pub hstore_key : Bytes → Outcome Part
hstore_key [] = unquoted_key []
hstore_key (c ∷ s) = if c == b'"' then quoted_part s else unquoted_key (c ∷ s)

pub hstore_value : Bytes → Outcome Part
hstore_value [] = unquoted_value []
hstore_value (c ∷ s) = if c == b'"' then quoted_part s else unquoted_value (c ∷ s)

-- `if (s == end || *s++ != '=' || s == end || *s++ != '>')`
pub arrow : Bytes → Outcome Bytes
arrow (a ∷ b ∷ s) =
    if a == b'='
    then (if b == b'>' then ok s else err characters_after_key)
    else err characters_after_key
arrow _ = err characters_after_key

-- behind a value and its blanks
pub next_entry : Bytes → Outcome Bytes
next_entry [] = ok []
next_entry (c ∷ s) =
    if not (c == b',')
    then err characters_after_value
    else elim (skip_blanks s) [ [] ↦ err missing_entry | d ∷ t ↦ ok (d ∷ t) ]

abbrev pub Entry : Type 0
Entry = Bytes × Option Bytes

abbrev pub key_of : Option Bytes → Bytes
key_of none = []
key_of (some b) = b

-- one entry, from its first byte that is no blank, and the text from the next one on
pub entry : Bytes → Outcome (Entry × Bytes)
entry s = do
  (key, behind_key) ← hstore_key s
  behind_arrow ← arrow (skip_blanks behind_key)
  (value, behind_value) ← hstore_value (skip_blanks behind_arrow)
  rest ← next_entry (skip_blanks behind_value)
  ok ((key_of key, value), rest)

-- `while (s != end)`
pub entries : ℕ → Bytes → Outcome (List Entry)
entries zero s = out_of_fuel
entries (suc fuel) s = elim (skip_blanks s) [
  | [] ↦ ok []
  | c ∷ t ↦ entry (c ∷ t) >>= λ r. entries fuel r.1 >>= λ l. ok (r.0 ∷ l)
]

pub cast_hstore : Bytes → Outcome (List Entry)
cast_hstore text = entries (suc (length text)) text
