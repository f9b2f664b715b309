-- ===== src/Quoting.antt =====
-- Quoted texts with backslashes, which arrays and hstore values share: where a scan of one stops,
-- and a reference printer that puts a backslash before each quote and backslash.
use py_gre_sql.Base.{
  ℕ, ◌+◌, ◌≤◌, Bool, false, ◌||◌, [], ◌∷◌, ◌++◌, Bytes, ◌==◌, if◌then◌else◌, ◌≡◌, refl, arith,
  Bool-cases, inl, inr, length,
}
use py_gre_sql.Scan.{scan}

unfoldable pub at_quote : ℕ → Bool
at_quote c = c == b'"'

abbrev pub is_special : ℕ → Bool
is_special c = c == b'"' || c == b'\\'

-- the escaped text, in front of `rest`
unfoldable pub quoted : Bytes → Bytes → Bytes
quoted [] rest = rest
quoted (c ∷ b) rest = let r = c ∷ quoted b rest in if is_special c then b'\\' ∷ r else r

quoted-append : (b rest : Bytes) → quoted b rest ≡ quoted b [] ++ rest
unfolding quoted
quoted-append [] rest = refl
quoted-append (c ∷ b) rest = elim (Bool-cases (is_special c)) [
  | inl e ↦ rw e (rw (quoted-append b rest) refl)
  | inr e ↦ rw e (rw (quoted-append b rest) refl)
]

abbrev pub specials : Bytes → ℕ
specials [] = 0
specials (c ∷ b) = (if is_special c then 1 else 0) + specials b

-- A scan for the right quote stops at the one that the printer wrote.
pub scan-quoted :
    (b rest : Bytes)
    → scan at_quote false (quoted b (b'"' ∷ rest))
      ≡ record { raw = quoted b []; escapes = specials b; rest = b'"' ∷ rest }
unfolding scan at_quote quoted
scan-quoted [] rest = refl
scan-quoted (c ∷ b) rest = ground (arith, scan-quoted b rest)

pub length-quoted : (b : Bytes) → length b ≤ length (quoted b [])
unfolding quoted
length-quoted [] = omega arith
length-quoted (c ∷ b) = ground (arith, length-quoted b)

pub quoted-specials : (b : Bytes) → specials b ≡ 0 → quoted b [] ≡ b
unfolding quoted
quoted-specials [] h = refl
quoted-specials (c ∷ b) h = ground (arith, quoted-specials b)
