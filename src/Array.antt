-- ===== src/Array.antt =====
-- `cast_array` of pginternal.c, the parser of PostgreSQL's array syntax, over the objects that a
-- conversion function makes of the elements' bytes. The C loop's state is the pointer `s`, the
-- list `result` that is being filled, and the `stack` of the lists around it, innermost first.
pub mod Safety
pub mod TokenSafety
pub mod Printer
pub mod Tokens
pub mod Rounds
pub mod RoundTrip
pub mod Overrun
mod Tests
use py_gre_sql.Base.{
  ℕ, zero, suc, ◌-◌, Bool, true, false, not, ◌&&◌, ◌||◌, List, [], ◌∷◌, ◌++◌, Bytes, Option, ◌==◌,
  ltb, leb, if◌then◌else◌, length,
}
use py_gre_sql.Outcome.{
  Outcome, ok, err, fault, out_of_fuel, ◌>>=◌, converted, no_left_brace, dimensions_mismatch,
  too_deep, subarray_expected, subarray_unexpected, subarray_brace, unexpected_array_end,
  characters_after_array, read_past_end, stack_overflow, buffer_overflow,
}
use py_gre_sql.Scan.{skip_blanks, next_nonblank, Scanned, scan, trim_end, str_is_null}
use py_gre_sql.Quoting.{at_quote}
use py_gre_sql.Dimensions.{max_array_depth, array_delimiter, deref, dimensions, leading_braces}

-- where the scan of an unquoted element stops
at_element_end : ℕ → ℕ → Bool
at_element_end delim c = c == b'"' || c == b'{' || c == b'}' || c == delim

-- The copy of an element with escapes: `size` is what is left of `esize`, and the pointer runs
-- over the text itself, so the byte behind a final backslash is copied too.
unescape : Bool → ℕ → Bytes → Outcome Bytes
unescape true size [] = fault read_past_end
unescape true size (c ∷ t) = do r ← unescape false (size - 1) t; ok (c ∷ r)
unescape false zero t = ok []
unescape false (suc size) [] = fault read_past_end
unescape false (suc size) (c ∷ t) =
    let r = unescape (c == b'\\') size t in if c == b'\\' then r else (r >>= λ q. ok (c ∷ q))

-- the copy goes to a buffer of `esize` bytes
abbrev fits_buffer : ℕ → Bytes → Outcome Bytes
fits_buffer size t = if leb (length t) size then ok t else fault buffer_overflow

-- What the text of one element is, before it is cast: the `esize` bytes at `estr`, whether they
-- stand for NULL, the scan that found them, and where the parser goes on.
pub record Token : Type 0 where
  pub shown : Bytes
  pub null : Bool
  pub scanned : Scanned
  pub rest : Bytes

-- behind the left quote
pub quoted_token : Bytes → Outcome Token
quoted_token s = do
  let r = scan at_quote false s
  rest ← next_nonblank r.rest
  ok (record { shown = r.raw; null = false; scanned = r; rest = rest })

-- An empty element sends the pointer to the end, which is an error further down.
pub unquoted_token : ℕ → Bytes → Token
unquoted_token delim s =
    let r = scan (at_element_end delim) false s in
    let shown = trim_end r.raw in
    record {
      shown = shown;
      null = str_is_null shown;
      scanned = r;
      rest = if length shown == 0 then [] else r.rest;
    }

pub token : ℕ → Bytes → Outcome Token
token delim [] = ok (unquoted_token delim [])
token delim (c ∷ s) = if c == b'"' then quoted_token s else ok (unquoted_token delim (c ∷ s))

-- what a conversion gets: the bytes of the element without their escapes
pub token_bytes : Token → Outcome Bytes
token_bytes k =
    if k.scanned.escapes == 0
    then ok k.shown
    else (unescape false (length k.shown) (k.scanned.raw ++ k.scanned.rest)
        >>= fits_buffer (length k.shown))

pub record State (Obj : Type 0) : Type 0 where
  pub s : Bytes
  pub stack : List (List Obj)
  pub result : List Obj

-- What one round of `while (s != end)` does: go on, or `break`.
pub data Round (Obj : Type 0) : Type 0 where
  next : State Obj → Round Obj
  leave : State Obj → Round Obj

-- The objects that the parser makes: lists, None, and what the conversion returns.
pub record Maker (Obj : Type 0) : Type 0 where
  pub list_of : List Obj → Obj
  pub none_obj : Obj
  pub convert : Bytes → Option Obj

abbrev pub go_on :
    {Obj : Type 0} → (State Obj → Outcome (State Obj)) → Round Obj → Outcome (State Obj)
go_on k (next st) = k st
go_on k (leave st) = ok st

module _ {Obj : Type 0} (m : Maker Obj) (delim depth : ℕ) where
  -- `subresult = result; result = stack[--level];` and the append
  pub pop_level : Bytes → List (List Obj) → List Obj → Outcome (Round Obj)
  pop_level s [] result = ok (leave (record { s = s; stack = []; result = result }))
  pop_level s (outer ∷ stack) result =
      ok (next (record { s = s; stack = stack; result = outer ++ (m.list_of result ∷ []) }))

  -- behind the delimiter that follows a subarray
  pub subarray_after : Bytes → State Obj → Outcome (Round Obj)
  subarray_after [] st = ok (leave (record st { s = [] }))
  subarray_after (c ∷ s) st =
      if c == b'{' then pop_level (c ∷ s) st.stack st.result else err subarray_expected

  -- behind the right brace of a subarray and its blanks
  pub after_subarray : Bytes → State Obj → Outcome (Round Obj)
  after_subarray [] st = ok (leave (record st { s = [] }))
  after_subarray (c ∷ s) st =
      if c == delim
      then subarray_after (skip_blanks s) st
      else if c == b'}'
      then pop_level (c ∷ s) st.stack st.result
      else ok (leave (record st { s = c ∷ s }))

  -- at a right brace, with `s` behind it
  pub close_level : Bytes → State Obj → Outcome (Round Obj)
  close_level s st = elim st.stack [
    | [] ↦ ok (leave st)
    | _ ∷ _ ↦ after_subarray (skip_blanks s) st
  ]

  -- behind an element and its blanks
  pub after_element : Bytes → State Obj → Outcome (Round Obj)
  after_element [] st = ok (leave (record st { s = [] }))
  after_element (c ∷ s) st =
      if c == delim
      then (elim (skip_blanks s) [
        | [] ↦ ok (leave (record st { s = [] }))
        | d ∷ t ↦ ok (next (record st { s = d ∷ t }))
      ])
      else if c == b'}'
      then ok (next (record st { s = c ∷ s }))
      else ok (leave (record st { s = c ∷ s }))

  pub element_value : Token → Outcome Obj
  element_value k =
      if k.null then ok m.none_obj else (token_bytes k >>= λ b. converted (m.convert b))

  -- where elements are expected: reads one and appends it
  pub append_element : Token → State Obj → Outcome (Round Obj)
  append_element k st = elim k.rest [
    | [] ↦ ok (leave (record st { s = [] }))
    | c ∷ s ↦ element_value k >>= λ v.
        after_element (c ∷ s) (record st { result = st.result ++ (v ∷ []) })
  ]

  -- `stack[level++] = result; result = PyList_New (0);`
  pub push_level : Bytes → State Obj → Outcome (Round Obj)
  push_level [] st = ok (leave (record st { s = [] }))
  push_level (c ∷ s) st =
      if ltb (length st.stack) max_array_depth
      then ok (next (record { s = c ∷ s; stack = st.result ∷ st.stack; result = [] }))
      else fault stack_overflow

  -- one round of the loop, at the byte `c` with `s` behind it
  pub step : ℕ → Bytes → State Obj → Outcome (Round Obj)
  step c s st =
      if c == b'}'
      then close_level s st
      else if length st.stack == depth
      then (if c == b'{'
          then err subarray_unexpected
          else (token delim (c ∷ s) >>= λ k. append_element k st))
      else if c == b'{'
      then push_level (skip_blanks s) st
      else err subarray_brace

  -- one round of `while (s != end)`
  pub round : State Obj → Outcome (Round Obj)
  round st = elim st.s [ [] ↦ ok (leave st) | c ∷ s ↦ step c s st ]

  -- the loop: the state that it leaves behind
  pub loop : ℕ → State Obj → Outcome (State Obj)
  loop zero st = out_of_fuel
  loop (suc fuel) st = round st >>= go_on (loop fuel)

-- behind the loop: the right brace of the array, blanks, and the end
pub finish : {Obj : Type 0} → State Obj → Outcome (List Obj)
finish st = elim st.s [
  | [] ↦ err unexpected_array_end
  | c ∷ s ↦
      if c == b'}'
      then elim (skip_blanks s) [ [] ↦ ok st.result | _ ∷ _ ↦ err characters_after_array ]
      else err unexpected_array_end
]

-- the checks on the number of left braces, and the depth of the elements
pub check_depth : ℕ → ℕ → Outcome ℕ
check_depth ranges braces =
    if braces == 0
    then err no_left_brace
    else if not (ranges == 0) && not (braces == ranges)
    then err dimensions_mismatch
    else if ltb max_array_depth braces
    then err too_deep
    else ok (braces - 1)

-- `cast_array`; `last` is the byte at `end`, which the code reads in one place.
pub cast_array : {Obj : Type 0} → Maker Obj → ℕ → ℕ → Bytes → Outcome (List Obj)
cast_array m delim₀ last text = do
  delim ← array_delimiter delim₀
  (ranges, s) ← dimensions last (skip_blanks text)
  depth ← check_depth ranges (leading_braces s)
  t ← next_nonblank s
  st ← loop m delim depth (suc (length t)) (record { s = t; stack = []; result = [] })
  finish st
