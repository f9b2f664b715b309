-- ===== src/Hstore/RoundTrip.antt =====
-- What PostgreSQL prints for an hstore value is parsed back.
use py_gre_sql.Base.{
  ℕ, zero, suc, ◌+◌, ◌≤◌, ◌<◌, ◌≡◌, refl, ◌∙◌, false, [], ◌∷◌, Bytes, List, Option, none, some,
  ◌==◌, length, arith, Bool-cases, inl, inr,
}
use py_gre_sql.Outcome.{ok, ◌>>=◌}
use py_gre_sql.Scan.{skip_blanks, Scanned, scan, str_is_null}
use py_gre_sql.Quoting.{quoted, specials, scan-quoted, quoted-specials}
use py_gre_sql.Hstore.{
  at_value_end, strip, stripped, quoted_part, unquoted_value, hstore_key, hstore_value, arrow,
  next_entry, Entry, entry, entries, cast_hstore,
}

-- each of these stands in front of `rest`
pub shown_part : Option Bytes → Bytes → Bytes
shown_part none rest = b'N' ∷ b'U' ∷ b'L' ∷ b'L' ∷ rest
shown_part (some b) rest = b'"' ∷ quoted b (b'"' ∷ rest)

pub shown_entry : Entry → Bytes → Bytes
shown_entry (k, v) rest = b'"' ∷ quoted k (b'"' ∷ b'=' ∷ b'>' ∷ shown_part v rest)

pub printed_hstore : List Entry → Bytes
printed_hstore [] = []
printed_hstore (e ∷ []) = shown_entry e []
printed_hstore (e ∷ f ∷ l) = shown_entry e (b',' ∷ b' ' ∷ printed_hstore (f ∷ l))

strip-quoted : (b : Bytes) → strip false (quoted b []) ≡ b
unfolding strip quoted
strip-quoted [] = refl
strip-quoted (c ∷ b) = ground (arith, strip-quoted b)

length-quoted_eq : (b : Bytes) → length (quoted b []) ≡ length b + specials b
unfolding quoted
length-quoted_eq [] = omega arith
length-quoted_eq (c ∷ b) = ground (arith, length-quoted_eq b)

abbrev scanned_text : Bytes → Bytes → Scanned
scanned_text b rest = record { raw = quoted b []; escapes = specials b; rest = b'"' ∷ rest }

stripped-quoted : (b rest : Bytes) → stripped (scanned_text b rest) ≡ ok b
unfolding stripped
stripped-quoted b rest = elim (Bool-cases (specials b == 0)) [
  | inl e ↦ rw e (rw (quoted-specials b (ground arith)))
  | inr e ↦ rw e (rw (strip-quoted b) (ground (arith, length-quoted_eq b)))
]

pub quoted_part-quoted : (b rest : Bytes) → quoted_part (quoted b (b'"' ∷ rest)) ≡ ok (some b, rest)
unfolding quoted_part
quoted_part-quoted b rest =
    rw (scan-quoted b rest, quoted_part) (rw (scan-quoted b rest) (rw (stripped-quoted b rest)))

-- what follows a printed value
abbrev AtEnd : Bytes → Type 0
AtEnd [] = Unit
AtEnd (c ∷ s) = c ≡ b','

hstore_value-shown :
    (v : Option Bytes) (rest : Bytes) → AtEnd rest → hstore_value (shown_part v rest) ≡ ok (v, rest)
unfolding hstore_value shown_part
hstore_value-shown none [] h = unfold unquoted_value scan at_value_end str_is_null in refl
hstore_value-shown none (c ∷ s) h =
    unfold unquoted_value scan at_value_end str_is_null in ground arith
hstore_value-shown (some b) rest h = quoted_part-quoted b rest

skip_blanks-shown :
    (v : Option Bytes) (rest : Bytes) → skip_blanks (shown_part v rest) ≡ shown_part v rest
unfolding skip_blanks shown_part
skip_blanks-shown none rest = refl
skip_blanks-shown (some b) rest = refl

skip_blanks-AtEnd : (rest : Bytes) → AtEnd rest → skip_blanks rest ≡ rest
unfolding skip_blanks
skip_blanks-AtEnd [] h = refl
skip_blanks-AtEnd (c ∷ s) h = ground arith

pub skip_blanks-arrow : (s : Bytes) → skip_blanks (b'=' ∷ s) ≡ b'=' ∷ s
unfolding skip_blanks
skip_blanks-arrow s = refl

entry-shown :
    (e : Entry) (rest : Bytes) {t : Bytes}
    → AtEnd rest
    → next_entry rest ≡ ok t
    → entry (shown_entry e rest) ≡ ok (e, t)
unfolding entry shown_entry hstore_key arrow
entry-shown (k, v) rest h n = rw (quoted_part-quoted k (b'=' ∷ b'>' ∷ shown_part v rest)) (
    rw (skip_blanks-arrow (b'>' ∷ shown_part v rest)) (
      rw (skip_blanks-shown v rest)
        (rw (hstore_value-shown v rest h) (rw (skip_blanks-AtEnd rest h) (rw n)))))

StartsQuoted : Bytes → Type 0
StartsQuoted t = (s : Bytes) × (t ≡ b'"' ∷ s)

StartsQuoted-printed : (e : Entry) (l : List Entry) → StartsQuoted (printed_hstore (e ∷ l))
unfolding StartsQuoted printed_hstore shown_entry
StartsQuoted-printed (k, v) [] = (_, refl)
StartsQuoted-printed (k, v) (f ∷ l) = (_, refl)

next_entry_lem : (t : Bytes) → StartsQuoted t → next_entry (b',' ∷ b' ' ∷ t) ≡ ok t
unfolding next_entry skip_blanks StartsQuoted
next_entry_lem t (s, e) = rw e refl

-- one round of the loop at a text that begins with a quote
entries_quoted :
    (fuel : ℕ) (s : Bytes) {e : Entry} {u : Bytes}
    → entry (b'"' ∷ s) ≡ ok (e, u)
    → entries (suc fuel) (b'"' ∷ s) ≡ (entries fuel u >>= λ l. ok (e ∷ l))
unfolding entries skip_blanks
entries_quoted fuel s h = rw h

entries_step :
    (fuel : ℕ) (t : Bytes) {e : Entry} {u : Bytes}
    → StartsQuoted t
    → entry t ≡ ok (e, u)
    → entries (suc fuel) t ≡ (entries fuel u >>= λ l. ok (e ∷ l))
unfolding StartsQuoted
entries_step fuel t (s, q) h = rw q (entries_quoted fuel s (rw q at h))

next_entry-nil : next_entry [] ≡ ok []
unfolding next_entry
next_entry-nil = refl

entries-printed :
    (fuel : ℕ) (l : List Entry) → length l < fuel → entries fuel (printed_hstore l) ≡ ok l
unfolding printed_hstore
entries-printed zero l h = absurd (omega arith)
entries-printed (suc fuel) [] h = unfold entries skip_blanks in refl
entries-printed (suc fuel) (e ∷ []) h =
    entries_step fuel _ (StartsQuoted-printed e []) (entry-shown e [] tt next_entry-nil)
    ∙ rw (entries-printed fuel [] (omega arith))
entries-printed (suc fuel) (e ∷ f ∷ l) h =
    entries_step fuel _ (StartsQuoted-printed e (f ∷ l))
      (entry-shown e _ refl (next_entry_lem _ (StartsQuoted-printed f l)))
    ∙ rw (entries-printed fuel (f ∷ l) (omega arith))

length-quoted_rest : (b rest : Bytes) → length rest ≤ length (quoted b rest)
unfolding quoted
length-quoted_rest [] rest = omega arith
length-quoted_rest (c ∷ b) rest = ground (arith, length-quoted_rest b rest)

length-shown_part : (v : Option Bytes) (rest : Bytes) → length rest ≤ length (shown_part v rest)
unfolding shown_part
length-shown_part none rest = omega arith
length-shown_part (some b) rest = omega (arith, length-quoted_rest b (b'"' ∷ rest))

length-shown_entry : (e : Entry) (rest : Bytes) → length rest < length (shown_entry e rest)
unfolding shown_entry
length-shown_entry (k, v) rest =
    omega (
      arith,
      length-quoted_rest k (b'"' ∷ b'=' ∷ b'>' ∷ shown_part v rest),
      length-shown_part v rest,
    )

length-printed : (l : List Entry) → length l ≤ length (printed_hstore l)
unfolding printed_hstore
length-printed [] = omega arith
length-printed (e ∷ []) = omega (arith, length-shown_entry e [])
length-printed (e ∷ f ∷ l) =
    omega
      (arith, length-shown_entry e (b',' ∷ b' ' ∷ printed_hstore (f ∷ l)), length-printed (f ∷ l))

-- `cast_hstore` reads back what is printed: the entries in their order, with any bytes in their
-- keys and values, and NULL.
pub cast_hstore-printed : (l : List Entry) → cast_hstore (printed_hstore l) ≡ ok l
unfolding cast_hstore
cast_hstore-printed l =
    entries-printed (suc (length (printed_hstore l))) l (omega (arith, length-printed l))
