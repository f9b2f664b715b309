-- ===== src/Array/Printer.antt =====
-- A reference printer for PostgreSQL's array syntax, independent of the parser: every text is
-- quoted, with a backslash before each quote and backslash, and nothing is left blank.
use py_gre_sql.Base.{ℕ, zero, suc, [], ◌∷◌, List, Bytes, Option, none, some, map, ◌≢◌}
use py_gre_sql.Array.{Maker}
use py_gre_sql.Quoting.{quoted}

-- `Nested d` are the values `d` lists deep, over texts and NULL.
abbrev pub Nested : ℕ → Type 0
Nested zero = Option Bytes
Nested (suc d) = List (Nested d)

-- each of these stands in front of `rest`
unfoldable pub separated : {A : Type 0} → (A → Bytes → Bytes) → ℕ → List A → Bytes → Bytes
separated show delim [] rest = rest
separated show delim (x ∷ []) rest = show x rest
separated show delim (x ∷ y ∷ xs) rest = show x (delim ∷ separated show delim (y ∷ xs) rest)

unfoldable pub shown : (delim d : ℕ) → Nested d → Bytes → Bytes
shown delim zero none rest = b'N' ∷ b'U' ∷ b'L' ∷ b'L' ∷ rest
shown delim zero (some b) rest = b'"' ∷ quoted b (b'"' ∷ rest)
shown delim (suc d) xs rest = b'{' ∷ separated (shown delim d) delim xs (b'}' ∷ rest)

abbrev pub printed : (delim d : ℕ) → Nested (suc d) → Bytes
printed delim d xs = shown delim (suc d) xs []

-- The list that the parser is to return. A text `b` converts to `f b`.
unfoldable pub value : {Obj : Type 0} → Maker Obj → (Bytes → Obj) → (d : ℕ) → Nested d → Obj
value m f zero none = m.none_obj
value m f zero (some b) = f b
value m f (suc d) xs = m.list_of (map (value m f d) xs)

-- The parser takes its depth from the left braces at the start: along the first items no list is
-- empty above the innermost.
abbrev pub LeadsDown : (d : ℕ) → Nested (suc d) → Type 0
LeadsDown zero xs = Unit
LeadsDown (suc d) [] = ⊥
LeadsDown (suc d) (x ∷ xs) = LeadsDown d x

-- A delimiter that no other part of the syntax uses.
pub record IsDelimiter (delim : ℕ) : Type 0 where
  pub nonzero : delim ≢ 0
  pub not_open : delim ≢ b'{'
  pub not_close : delim ≢ b'}'
  pub not_backslash : delim ≢ b'\\'
  pub not_quote : delim ≢ b'"'
  pub not_blank : delim ≢ b' '
  pub not_n : delim ≢ b'N'
  pub not_u : delim ≢ b'U'
  pub not_l : delim ≢ b'L'
