-- ===== src/Array/Rounds.antt =====
-- The rounds of the parser's loop on the pieces of a printed array, and how they compose.
use py_gre_sql.Base.{
  ==_eq, ℕ, zero, suc, ◌≤◌, ◌<◌, ◌≢◌, true, [], ◌∷◌, ◌++◌, List, Bytes, ◌≡◌, refl, arith, ◌⊎◌,
  length, none, some,
}
use py_gre_sql.Outcome.{ok}
use py_gre_sql.Scan.{scan, skip_blanks, trim_end, str_is_null}
use py_gre_sql.Dimensions.{max_array_depth}
use py_gre_sql.Array.{
  Maker, State, next, leave, pop_level, subarray_after, after_subarray, close_level, after_element,
  element_value, append_element, push_level, step, round, loop, token, unquoted_token,
  at_element_end, Token,
}
use py_gre_sql.Array.Safety.{round-Advances}
use py_gre_sql.Array.Printer.{shown, IsDelimiter, Nested, value}
use py_gre_sql.Array.Tokens.{text_token, quoted_token-quoted, token_bytes-text_token}

-- The text begins with a byte that is no blank.
abbrev pub StartsNonblank : Bytes → Type 0
StartsNonblank t = (c : ℕ) × (s : Bytes) × (t ≡ c ∷ s) × (c ≢ b' ')

-- blanks do not begin where a delimiter or a right brace stands
skip_blanks_stays :
    {delim : ℕ} (c : ℕ) (s : Bytes)
    → IsDelimiter delim
    → (c ≡ delim) ⊎ (c ≡ b'}')
    → skip_blanks (c ∷ s) ≡ c ∷ s
unfolding skip_blanks
skip_blanks_stays c s i h = ground arith

null_token : (delim c : ℕ) (s : Bytes) → Token
null_token delim c s = record {
  shown = b'N' ∷ b'U' ∷ b'L' ∷ b'L' ∷ [];
  null = true;
  scanned = record { raw = b'N' ∷ b'U' ∷ b'L' ∷ b'L' ∷ []; escapes = 0; rest = c ∷ s };
  rest = c ∷ s;
}

unquoted_token-null :
    (delim c : ℕ) (s : Bytes)
    → IsDelimiter delim
    → (c ≡ delim) ⊎ (c ≡ b'}')
    → unquoted_token delim (b'N' ∷ b'U' ∷ b'L' ∷ b'L' ∷ c ∷ s) ≡ null_token delim c s
unfolding unquoted_token scan at_element_end trim_end str_is_null null_token
unquoted_token-null delim c s i h = ground arith

module _ {Obj : Type 0} (m : Maker Obj) (delim depth : ℕ) where
  -- rounds that go on, one after another
  pub data Rounds (t : State Obj) : State Obj → Type 0 where
    here : {s : State Obj} → s ≡ t → Rounds t s
    more : {s u : State Obj} → round m delim depth s ≡ ok (next u) → Rounds t u → Rounds t s

  pub Rounds-trans : {t s u : State Obj} → Rounds t s → Rounds u t → Rounds u s
  Rounds-trans (here e) r = rw e r
  Rounds-trans (more e p) r = more e (Rounds-trans p r)

  -- With fuel for the text the loop makes all rounds of a chain, and the one that leaves it.
  pub loop-Rounds :
      {t u : State Obj} (fuel : ℕ) {s : State Obj}
      → Rounds t s
      → round m delim depth t ≡ ok (leave u)
      → length s.s < fuel
      → length s.stack ≤ depth
      → depth < max_array_depth
      → loop m delim depth fuel s ≡ ok u
  unfolding loop
  loop-Rounds zero r e h k d = absurd (omega arith)
  loop-Rounds (suc fuel) (here q) e h k d = rw q (rw e)
  loop-Rounds (suc fuel) {s} (more {u = v} q r) e h k d =
      let ready = rw q at (round-Advances m delim depth fuel s h k d) in
      rw q (loop-Rounds fuel r e (ready v refl).0 (ready v refl).1 d)

  -- a left brace where lists are expected, and a text behind it that begins with no blank
  pub round_open :
      (t : Bytes) (stack : List (List Obj)) (result : List Obj)
      → length stack < depth
      → depth < max_array_depth
      → StartsNonblank t
      → round m delim depth (record { s = b'{' ∷ t; stack = stack; result = result })
        ≡ ok (next (record { s = t; stack = result ∷ stack; result = [] }))
  unfolding round step push_level skip_blanks
  round_open t stack result h d (c, s, e, nb) = rw e (ground arith)

  pub after_element_close :
      (u : Bytes) (st : State Obj)
      → delim ≢ b'}'
      → after_element m delim depth (b'}' ∷ u) st ≡ ok (next (record st { s = b'}' ∷ u }))
  unfolding after_element
  after_element_close u st h = ground arith

  pub after_element_delim :
      (t : Bytes) (st : State Obj)
      → StartsNonblank t
      → after_element m delim depth (delim ∷ t) st ≡ ok (next (record st { s = t }))
  unfolding after_element skip_blanks
  after_element_delim t st (c, s, e, nb) = rw e (ground arith)

  -- a right brace behind a list, and another right brace behind it
  pub round_close :
      (s : Bytes) (outer : List Obj) (stack : List (List Obj)) (result : List Obj)
      → delim ≢ b'}'
      → round m delim depth (record { s = b'}' ∷ b'}' ∷ s; stack = outer ∷ stack; result = result })
        ≡ ok (
            next
              (record { s = b'}' ∷ s; stack = stack; result = outer ++ (m.list_of result ∷ []) }))
  unfolding round step close_level after_subarray pop_level skip_blanks
  round_close s outer stack result h = ground arith

  -- a right brace behind a list, a delimiter and another list
  pub round_close_delim :
      (s : Bytes) (outer : List Obj) (stack : List (List Obj)) (result : List Obj)
      → delim ≢ b' '
      → round m delim depth
          (record { s = b'}' ∷ delim ∷ b'{' ∷ s; stack = outer ∷ stack; result = result })
        ≡ ok (
            next
              (record { s = b'{' ∷ s; stack = stack; result = outer ++ (m.list_of result ∷ []) }))
  unfolding round step close_level after_subarray subarray_after pop_level skip_blanks
  round_close_delim s outer stack result h = ground arith

  append_element_lem :
      (k : Token) (st : State Obj) {c : ℕ} {s : Bytes} {v : Obj}
      → k.rest ≡ c ∷ s
      → element_value m delim depth k ≡ ok v
      → append_element m delim depth k st
        ≡ after_element m delim depth (c ∷ s) (record st { result = st.result ++ (v ∷ []) })
  unfolding append_element
  append_element_lem k st {c} {s} r e = rw (r, append_element) (rw e)

  element_value-text_token :
      (b rest : Bytes) {v : Obj}
      → m.convert b ≡ some v
      → element_value m delim depth (text_token b rest) ≡ ok v
  unfolding element_value
  element_value-text_token b rest e = rw (token_bytes-text_token b rest) (rw e)

  element_value-null_token :
      (c : ℕ) (s : Bytes) → element_value m delim depth (null_token delim c s) ≡ ok m.none_obj
  unfolding element_value null_token
  element_value-null_token c s = refl

  -- the value of a printed text or NULL is appended, whatever may follow
  pub round-shown :
      (f : Bytes → Obj)
      → ((b : Bytes) → m.convert b ≡ some (f b))
      → (x : Nested 0) (c : ℕ) (s : Bytes) (stack : List (List Obj)) (result : List Obj)
      → IsDelimiter delim
      → length stack ≡ depth
      → (c ≡ delim) ⊎ (c ≡ b'}')
      → round m delim depth (record { s = shown delim 0 x (c ∷ s); stack = stack; result = result })
        ≡ after_element m delim depth (c ∷ s) (record {
          s = shown delim 0 x (c ∷ s);
          stack = stack;
          result = result ++ (value m f 0 x ∷ []);
        })
  unfolding round step shown value token null_token
  round-shown f converts (some b) c s stack result i e h = rw (quoted_token-quoted b (c ∷ s)) (
      rw (==_eq _ _ e) (
        append_element_lem (text_token b (c ∷ s)) _ (skip_blanks_stays c s i h)
          (element_value-text_token b (c ∷ s) (converts b))))
  round-shown f converts none c s stack result i e h = rw (==_eq _ _ e) (
      rw (unquoted_token-null delim c s i h)
        (append_element_lem (null_token delim c s) _ refl (element_value-null_token c s)))
