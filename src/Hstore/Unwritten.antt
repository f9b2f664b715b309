-- ===== src/Hstore/Unwritten.antt =====
-- Where `cast_hstore` uses a byte of a buffer that it has not written: a value without quotes that
-- has an escape and ends in a backslash.
use py_gre_sql.Base.{ℕ, suc, ◌≢◌, [], ◌∷◌, Bytes, List}

-- a byte of a value: behind a backslash, or as it is
pub data Letter : Type 0 where
  behind_backslash : ℕ → Letter
  bare : (c : ℕ) → c ≢ b',' → c ≢ b' ' → c ≢ b'\\' → Letter

-- the value with a backslash behind it
abbrev pub shown_value : List Letter → Bytes
shown_value [] = b'\\' ∷ []
shown_value (behind_backslash c ∷ ps) = b'\\' ∷ c ∷ shown_value ps
shown_value (bare c h i j ∷ ps) = c ∷ shown_value ps

abbrev pub escapes_of : List Letter → ℕ
escapes_of [] = 0
escapes_of (behind_backslash c ∷ ps) = suc (escapes_of ps)
escapes_of (bare c h i j ∷ ps) = escapes_of ps

-- a value that is not taken for a quoted one
abbrev pub StartsBare : List Letter → Type 0
StartsBare (bare c h i j ∷ ps) = c ≢ b'"'
StartsBare _ = Unit

abbrev without_last : List Letter → Bytes
without_last [] = []
without_last (behind_backslash c ∷ ps) = b'\\' ∷ c ∷ without_last ps
without_last (bare c h i j ∷ ps) = c ∷ without_last ps
