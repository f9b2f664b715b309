-- ===== src/Array/TokenSafety.antt =====
-- One element of an array: the token lies in the text, and the copy of its bytes stays in its buffer
-- and in the text.
use py_gre_sql.Base.{
  ℕ, zero, suc, ◌+◌, ◌≤◌, ◌<◌, Bool, true, false, [], ◌∷◌, ◌++◌, suc-sub-one, Bytes, ◌≡◌, arith,
  ◌==◌, if◌then◌else◌, Bool-cases, inl, inr, length, length-append,
}
use py_gre_sql.Outcome.{ok, Ensures, bind-Ensures, Ensures-mono, Fault, moved_past_end}
use py_gre_sql.Scan.{next_nonblank, scan}
use py_gre_sql.Scan.Lengths.{length-next_nonblank, length-scan, length-trim_end}
use py_gre_sql.Quoting.{at_quote}
use py_gre_sql.Array.{
  at_element_end, unescape, fits_buffer, Token, quoted_token, unquoted_token, token, token_bytes,
}

-- the only fault that is left
abbrev pub Overrun : Fault → Type 0
Overrun f = f ≡ moved_past_end

unescape-Ensures :
    (after : Bool) (size : ℕ) (t : Bytes)
    → size < length t
    → Ensures (λ r. length r ≤ (if after then size + 1 else size)) Overrun (unescape after size t)
unfolding unescape
unescape-Ensures after size [] h = absurd (omega arith)
unescape-Ensures true zero (c ∷ t) h = omega arith
unescape-Ensures true (suc size) (c ∷ t) h = rw (suc-sub-one size) (
    bind-Ensures (λ r. length r ≤ size) (λ r. length r ≤ suc size + 1) Overrun
      (unescape false size t) (λ r. ok (c ∷ r)) (unescape-Ensures false size t (omega arith))
      (λ r k. omega arith))
unescape-Ensures false zero (c ∷ t) h = omega arith
unescape-Ensures false (suc size) (c ∷ t) h = elim (Bool-cases (c == b'\\')) [
  | inl e ↦ rw e (
      Ensures-mono _ _ _ (unescape true size t) (unescape-Ensures true size t (omega arith))
        (λ r k. omega arith))
  | inr e ↦ rw e (
      bind-Ensures (λ r. length r ≤ size) (λ r. length r ≤ suc size) Overrun (unescape false size t)
        (λ r. ok (c ∷ r)) (unescape-Ensures false size t (omega arith)) (λ r k. omega arith))
]

-- A token is safe within `limit` bytes: it leaves fewer, and its copy, if there is one, stays
-- within the text.
pub record IsSafe (limit : ℕ) (k : Token) : Type 0 where
  pub shorter : length k.rest ≤ limit
  within : 0 < length k.rest → length k.shown < length (k.scanned.raw ++ k.scanned.rest)

quoted_token-IsSafe : (s : Bytes) → Ensures (IsSafe (length s)) Overrun (quoted_token s)
unfolding quoted_token
quoted_token-IsSafe s =
    let r = scan at_quote false s in
    bind-Ensures (λ t. length t + 1 ≤ length r.rest) _ _ (next_nonblank r.rest) _
      (length-next_nonblank r.rest)
      (λ t k. omega (arith, length-scan at_quote false s, length-append r.raw r.rest))

unquoted_token-IsSafe :
    (delim limit : ℕ) (s : Bytes) → length s ≤ suc limit → IsSafe limit (unquoted_token delim s)
unfolding unquoted_token
unquoted_token-IsSafe delim limit s h =
    let r = scan (at_element_end delim) false s in
    let split = length-scan (at_element_end delim) false s in
    record {
      shorter = ground (arith, split, length-trim_end r.raw);
      within = ground (arith, split, length-append r.raw r.rest, length-trim_end r.raw);
    }

pub token-IsSafe :
    (delim c : ℕ) (s : Bytes) → Ensures (IsSafe (length s)) Overrun (token delim (c ∷ s))
unfolding token
token-IsSafe delim c s = elim (Bool-cases (c == b'"')) [
  | inl e ↦ rw e (quoted_token-IsSafe s)
  | inr e ↦ rw e (unquoted_token-IsSafe delim (length s) (c ∷ s) (omega arith))
]

pub token_bytes-Ensures :
    (limit : ℕ) (k : Token)
    → IsSafe limit k
    → 0 < length k.rest
    → Ensures (λ b. length b ≤ length k.shown) Overrun (token_bytes k)
unfolding token_bytes
token_bytes-Ensures limit k h more = elim (Bool-cases (k.scanned.escapes == 0)) [
  | inl e ↦ rw e (omega arith)
  | inr e ↦ rw e (
      bind-Ensures (λ r. length r ≤ length k.shown) _ _
        (unescape false (length k.shown) (k.scanned.raw ++ k.scanned.rest))
        (fits_buffer (length k.shown))
        (unescape-Ensures false (length k.shown) (k.scanned.raw ++ k.scanned.rest) (h.within more))
        (λ r le. ground arith))
]
