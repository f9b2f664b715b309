-- ===== src/Array/Tokens.antt =====
-- The parser's tokens on printed texts: a quoted text is found whole, and its copy without
-- escapes is the text.
use py_gre_sql.Base.{
  ℕ, false, [], ◌∷◌, ◌++◌, Bytes, ◌≡◌, refl, arith, ◌==◌, Bool-cases, inl, inr, length, suc-sub-one,
}
use py_gre_sql.Outcome.{ok}
use py_gre_sql.Scan.{next_nonblank, skip_blanks}
use py_gre_sql.Array.{unescape, Token, quoted_token, token_bytes}
use py_gre_sql.Quoting.{specials, scan-quoted, length-quoted, quoted-specials, is_special, quoted}

not_backslash : (c : ℕ) → is_special c ≡ false → (c == b'\\') ≡ false
not_backslash c e = ground arith

unescape-quoted :
    (b rest : Bytes) → unescape false (length (quoted b [])) (quoted b [] ++ rest) ≡ ok b
unfolding unescape quoted
unescape-quoted [] rest = refl
unescape-quoted (c ∷ b) rest = elim (Bool-cases (is_special c)) [
  | inl e ↦ rw e (rw (suc-sub-one (length (quoted b []))) (rw (unescape-quoted b rest)))
  | inr e ↦ rw e (rw (not_backslash c e) (rw (unescape-quoted b rest)))
]

-- what the parser makes of a quoted text, with `rest` behind the right quote
abbrev pub text_token : Bytes → Bytes → Token
text_token b rest = record {
  shown = quoted b [];
  null = false;
  scanned = record { raw = quoted b []; escapes = specials b; rest = b'"' ∷ rest };
  rest = skip_blanks rest;
}

pub quoted_token-quoted :
    (b rest : Bytes) → quoted_token (quoted b (b'"' ∷ rest)) ≡ ok (text_token b rest)
unfolding quoted_token next_nonblank
quoted_token-quoted b rest = rw (scan-quoted b rest)

pub token_bytes-text_token : (b rest : Bytes) → token_bytes (text_token b rest) ≡ ok b
unfolding token_bytes
token_bytes-text_token b rest = elim (Bool-cases (specials b == 0)) [
  | inl e ↦ rw e (rw (quoted-specials b (ground arith)))
  | inr e ↦ rw e (rw (unescape-quoted b (b'"' ∷ rest)) (ground (arith, length-quoted b)))
]
