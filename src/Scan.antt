-- ===== src/Scan.antt =====
-- The scanning loops of the text parsers in pginternal.c, over the bytes from `s` up to `end`.
-- A pointer is the list of bytes between it and `end`.
pub mod Lengths
use py_gre_sql.Base.{ℕ, ◌+◌, Bool, true, false, ◌&&◌, [], ◌∷◌, Bytes, ◌==◌, if◌then◌else◌}
use py_gre_sql.Outcome.{Outcome, ok, fault, moved_past_end}

-- `while (s != end && *s == ' ') ++s;`
unfoldable pub skip_blanks : Bytes → Bytes
skip_blanks [] = []
skip_blanks (c ∷ s) = let rest = skip_blanks s in if c == b' ' then rest else c ∷ s

-- `do ++s; while (s != end && *s == ' ');`, which must not start at `end`
unfoldable pub next_nonblank : Bytes → Outcome Bytes
next_nonblank [] = fault moved_past_end
next_nonblank (c ∷ s) = ok (skip_blanks s)

-- the bytes that a scan has passed, the number of escapes among them, and where it stopped
pub record Scanned : Type 0 where
  pub raw : Bytes
  pub escapes : ℕ
  pub rest : Bytes

abbrev pub passing : ℕ → ℕ → Scanned → Scanned
passing c n r = record { raw = c ∷ r.raw; escapes = n + r.escapes; rest = r.rest }

-- The loop that passes bytes up to one at which `stop` holds, where a backslash takes the next
-- byte with it; the flag says that the last byte was such a backslash.
unfoldable pub scan : (ℕ → Bool) → Bool → Bytes → Scanned
scan stop after [] = record { raw = []; escapes = 0; rest = [] }
scan stop true (c ∷ s) = passing c 1 (scan stop false s)
scan stop false (c ∷ s) =
    let more = passing c 0 (scan stop (c == b'\\') s) in
    if stop c then record { raw = []; escapes = 0; rest = c ∷ s } else more

-- `while (t > estr && *(t - 1) == ' ') --t;`
abbrev pub cons_unless_blank : ℕ → Bytes → Bytes
cons_unless_blank c [] = if c == b' ' then [] else c ∷ []
cons_unless_blank c (d ∷ s) = c ∷ d ∷ s

unfoldable pub trim_end : Bytes → Bytes
trim_end [] = []
trim_end (c ∷ s) = cons_unless_blank c (trim_end s)

abbrev either_case : ℕ → ℕ → ℕ → Bool
either_case c lower upper = if c == lower then true else c == upper

-- `STR_IS_NULL (s, n)` on the `n` bytes at `s`
unfoldable pub str_is_null : Bytes → Bool
str_is_null (a ∷ b ∷ c ∷ d ∷ []) =
    either_case a b'n' b'N'
    && either_case b b'u' b'U'
    && either_case c b'l' b'L'
    && either_case d b'l' b'L'
str_is_null _ = false
