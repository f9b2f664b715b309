-- ===== src/Hstore/Safety.antt =====
-- `cast_hstore` ends, and leaves the text and its buffers alone; it may use bytes of a buffer that
-- it has not written, where the text ends in a backslash.
use py_gre_sql.Base.{
  ℕ, zero, suc, ◌+◌, ◌≤◌, ◌<◌, ◌≡◌, Bool, true, false, [], ◌∷◌, Bytes, List, some, ◌==◌,
  if◌then◌else◌, length, arith, Bool-cases, inl, inr,
}
use py_gre_sql.Outcome.{
  ok, err, Ensures, Ensures-mono, unterminated_quote, bind-Ensures, Fault, uninitialised, ◌>>=◌,
}
use py_gre_sql.Scan.{skip_blanks, scan, str_is_null}
use py_gre_sql.Scan.Lengths.{length-skip_blanks, length-scan}
use py_gre_sql.Quoting.{at_quote}
use py_gre_sql.Hstore.{
  at_key_end, at_value_end, strip, stripped, Part, quoted_part, unquoted_key, unquoted_value,
  hstore_key, hstore_value, arrow, next_entry, Entry, entry, entries, cast_hstore,
}

abbrev Unwritten : Fault → Type 0
Unwritten f = f ≡ uninitialised

abbrev pending : Bool → ℕ
pending after = if after then 1 else 0

-- The copy is never longer than the buffer.
strip-scan :
    (stop : ℕ → Bool) (after : Bool) (s : Bytes)
    → length (strip after (scan stop after s).raw) + (scan stop after s).escapes
      ≤ length (scan stop after s).raw + pending after
unfolding scan strip
strip-scan stop after [] = omega arith
strip-scan stop true (c ∷ s) = omega (arith, strip-scan stop false s)
strip-scan stop false (c ∷ s) = ground (arith, strip-scan stop (c == b'\\') s)

-- It fills the buffer unless the text ended.
strip-scan_full :
    (stop : ℕ → Bool) (after : Bool) (s : Bytes)
    → 0 < length (scan stop after s).rest
    → length (strip after (scan stop after s).raw) + (scan stop after s).escapes
      ≡ length (scan stop after s).raw + pending after
unfolding scan strip
strip-scan_full stop after [] h = absurd (omega arith)
strip-scan_full stop true (c ∷ s) h = omega (arith, strip-scan_full stop false s h)
strip-scan_full stop false (c ∷ s) h = ground (arith, strip-scan_full stop (c == b'\\') s)

stripped-Ensures :
    (stop : ℕ → Bool) (s : Bytes)
    → Ensures (λ (b : Bytes). Unit) Unwritten (stripped (scan stop false s))
unfolding stripped
stripped-Ensures stop s = ground (arith, strip-scan stop false s)

-- a part leaves at most so many bytes
abbrev Within : ℕ → Part → Type 0
Within limit p = length p.1 ≤ limit

quoted_part-Within : (s : Bytes) → Ensures (Within (length s)) Unwritten (quoted_part s)
unfolding quoted_part
quoted_part-Within s = go (scan at_quote false s).rest (omega (arith, length-scan at_quote false s))
  where
    go :
        (rest : Bytes)
        → length rest ≤ length s
        → Ensures (Within (length s)) Unwritten (elim rest [
          | [] ↦ err unterminated_quote
          | _ ∷ t ↦ stripped (scan at_quote false s) >>= λ b. ok (some b, t)
        ])
    go [] h = tt
    go (c ∷ t) h =
        bind-Ensures _ _ _ (stripped (scan at_quote false s)) _ (stripped-Ensures at_quote s)
          (λ b _. omega arith)

unquoted_key-Within : (s : Bytes) → Ensures (Within (length s)) Unwritten (unquoted_key s)
unfolding unquoted_key
unquoted_key-Within s = elim (Bool-cases (length (scan at_key_end false s).raw == 0)) [
  | inl e ↦ rw e tt
  | inr e ↦ rw e (
      bind-Ensures _ _ _ (stripped (scan at_key_end false s)) _ (stripped-Ensures at_key_end s)
        (λ b _. omega (arith, length-scan at_key_end false s)))
]

unquoted_value-Within : (s : Bytes) → Ensures (Within (length s)) Unwritten (unquoted_value s)
unfolding unquoted_value
unquoted_value-Within s = elim (Bool-cases (length (scan at_value_end false s).raw == 0)) [
  | inl e ↦ rw e tt
  | inr e ↦ rw e (elim (Bool-cases (str_is_null (scan at_value_end false s).raw)) [
    | inl n ↦ rw n (omega (arith, length-scan at_value_end false s))
    | inr n ↦ rw n (
        bind-Ensures _ _ _ (stripped (scan at_value_end false s)) _
          (stripped-Ensures at_value_end s)
          (λ b _. omega (arith, length-scan at_value_end false s)))
  ])
]

quoted_part_longer :
    (c : ℕ) (s : Bytes) → Ensures (Within (suc (length s))) Unwritten (quoted_part s)
quoted_part_longer c s =
    Ensures-mono _ _ _ (quoted_part s) (quoted_part-Within s) (λ p h. omega arith)

hstore_key-Within : (s : Bytes) → Ensures (Within (length s)) Unwritten (hstore_key s)
unfolding hstore_key
hstore_key-Within [] = unquoted_key-Within []
hstore_key-Within (c ∷ s) = elim (Bool-cases (c == b'"')) [
  | inl e ↦ rw e (quoted_part_longer c s)
  | inr e ↦ rw e (unquoted_key-Within (c ∷ s))
]

hstore_value-Within : (s : Bytes) → Ensures (Within (length s)) Unwritten (hstore_value s)
unfolding hstore_value
hstore_value-Within [] = unquoted_value-Within []
hstore_value-Within (c ∷ s) = elim (Bool-cases (c == b'"')) [
  | inl e ↦ rw e (quoted_part_longer c s)
  | inr e ↦ rw e (unquoted_value-Within (c ∷ s))
]

arrow-Ensures : (s : Bytes) → Ensures (λ t. length t + 2 ≤ length s) Unwritten (arrow s)
unfolding arrow
arrow-Ensures (a ∷ b ∷ s) = ground arith
arrow-Ensures (a ∷ []) = tt
arrow-Ensures _ = tt

next_entry-Ensures : (s : Bytes) → Ensures (λ t. length t ≤ length s) Unwritten (next_entry s)
unfolding next_entry
next_entry-Ensures [] = omega arith
next_entry-Ensures (c ∷ s) = ground (arith, length-skip_blanks s)

entry-Ensures :
    (s : Bytes) → Ensures (λ (r : Entry × Bytes). length r.1 + 2 ≤ length s) Unwritten (entry s)
unfolding entry
entry-Ensures s = bind-Ensures _ _ _ (hstore_key s) _ (hstore_key-Within s) λ k hk.
    bind-Ensures _ _ _ (arrow (skip_blanks k.1)) _ (arrow-Ensures (skip_blanks k.1)) λ a ha.
      bind-Ensures _ _ _ (hstore_value (skip_blanks a)) _ (hstore_value-Within (skip_blanks a))
        λ v hv.
          bind-Ensures _ _ _ (next_entry (skip_blanks v.1)) _ (next_entry-Ensures (skip_blanks v.1))
            λ t ht.
              omega (arith, length-skip_blanks k.1, length-skip_blanks a, length-skip_blanks v.1)

entries-Ensures :
    (fuel : ℕ) (s : Bytes)
    → length s < fuel
    → Ensures (λ (l : List Entry). Unit) Unwritten (entries fuel s)
unfolding entries
entries-Ensures zero s h = absurd (omega arith)
entries-Ensures (suc fuel) s h =
    go (skip_blanks s) (omega (arith, length-skip_blanks s)) (entries-Ensures fuel)
  where
    go :
        (t : Bytes)
        → length t < suc fuel
        → ((u : Bytes)
            → length u < fuel
            → Ensures (λ (l : List Entry). Unit) Unwritten (entries fuel u))
        → Ensures
            (λ (l : List Entry). Unit)
            Unwritten
            (elim t [
              | [] ↦ ok []
              | c ∷ u ↦ entry (c ∷ u) >>= λ r. entries fuel r.1 >>= λ l. ok (r.0 ∷ l)
            ])
    go [] k rest = tt
    go (c ∷ u) k rest =
        bind-Ensures _ _ _ (entry (c ∷ u)) _ (entry-Ensures (c ∷ u))
          λ r hr. bind-Ensures _ _ _ (entries fuel r.1) _ (rest r.1 (omega arith)) (λ l _. tt)

-- For any text, `cast_hstore` returns entries or raises an error, or it uses bytes of a buffer that
-- it has not written. It needs no more rounds than the text has bytes, does not leave the text,
-- and never writes past a buffer.
pub cast_hstore-Ensures :
    (text : Bytes) → Ensures (λ (l : List Entry). Unit) (λ f. f ≡ uninitialised) (cast_hstore text)
unfolding cast_hstore
cast_hstore-Ensures text = entries-Ensures (suc (length text)) text (omega arith)
