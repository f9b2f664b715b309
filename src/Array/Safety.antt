-- ===== src/Array/Safety.antt =====
-- No run of `cast_array` runs out of fuel, overflows a buffer or the level stack, or reads behind
-- the end while it copies; each round of its loop moves the pointer forward.
use py_gre_sql.Base.{
  ℕ, zero, suc, ◌+◌, ◌≤◌, ◌<◌, [], ◌∷◌, ◌++◌, List, Bytes, ◌≡◌, refl, arith, Bool-cases, inl, inr,
  length,
}
use py_gre_sql.Outcome.{
  Outcome, ok, Ensures, bind-Ensures, Ensures-mono, converted-Ensures, moved_past_end, ◌>>=◌,
}
use py_gre_sql.Scan.{skip_blanks, next_nonblank}
use py_gre_sql.Scan.Lengths.{length-skip_blanks, length-next_nonblank}
use py_gre_sql.Dimensions.{max_array_depth, array_delimiter, dimensions, leading_braces}
use py_gre_sql.Dimensions.Safety.{array_delimiter-Ensures, dimensions-Ensures}
use py_gre_sql.Array.{
  Token, token, token_bytes, Maker, State, Round, next, leave, pop_level, subarray_after,
  after_subarray, close_level, after_element, element_value, append_element, push_level, step,
  round, go_on, loop, check_depth, finish, cast_array,
}
use py_gre_sql.Array.TokenSafety.{Overrun, IsSafe, token-IsSafe, token_bytes-Ensures}

go_on-Ensures :
    {Obj : Type 0} (k : State Obj → Outcome (State Obj)) (P : State Obj → Type 0)
    → ((st : State Obj) → P st → Ensures (λ (st' : State Obj). Unit) Overrun (k st))
    → (r : Round Obj) → ((st : State Obj) → r ≡ next st → P st)
    → Ensures (λ (st' : State Obj). Unit) Overrun (go_on k r)
go_on-Ensures k P keep (next st) a = keep st (a st refl)
go_on-Ensures k P keep (leave st) a = tt

module _ {Obj : Type 0} (m : Maker Obj) (delim depth : ℕ) where
  -- A round that begins with `limit` bytes behind the current one leaves no more of them, and
  -- stays at the depth of the elements or above.
  abbrev pub Advances : ℕ → Round Obj → Type 0
  Advances limit (next st) = (length st.s ≤ limit) × (length st.stack ≤ depth)
  Advances limit (leave st) = Unit

  pop_level-Advances :
      (limit : ℕ) (s : Bytes) (stack : List (List Obj)) (result : List Obj)
      → length s ≤ limit
      → length stack ≤ depth
      → Ensures (Advances limit) Overrun (pop_level m delim depth s stack result)
  unfolding pop_level
  pop_level-Advances limit s [] result h k = tt
  pop_level-Advances limit s (outer ∷ stack) result h k = omega arith

  subarray_after-Advances :
      (limit : ℕ) (s : Bytes) (st : State Obj)
      → length s ≤ limit
      → length st.stack ≤ depth
      → Ensures (Advances limit) Overrun (subarray_after m delim depth s st)
  unfolding subarray_after
  subarray_after-Advances limit [] st h k = tt
  subarray_after-Advances limit (c ∷ s) st h k =
      ground (arith, pop_level-Advances limit (c ∷ s) st.stack st.result h k)

  after_subarray-Advances :
      (limit : ℕ) (s : Bytes) (st : State Obj)
      → length s ≤ limit
      → length st.stack ≤ depth
      → Ensures (Advances limit) Overrun (after_subarray m delim depth s st)
  unfolding after_subarray
  after_subarray-Advances limit [] st h k = tt
  after_subarray-Advances limit (c ∷ s) st h k = ground (
    arith,
    length-skip_blanks s,
    subarray_after-Advances limit (skip_blanks s) st,
    pop_level-Advances limit (c ∷ s) st.stack st.result h k,
  )

  close_level-Advances :
      (s : Bytes) (st : State Obj)
      → length st.stack ≤ depth
      → Ensures (Advances (length s)) Overrun (close_level m delim depth s st)
  unfolding close_level
  close_level-Advances s st k = go st.stack
    where
      go :
          (stack : List (List Obj))
          → Ensures (Advances (length s)) Overrun (elim stack [
            | [] ↦ ok (leave st)
            | _ ∷ _ ↦ after_subarray m delim depth (skip_blanks s) st
          ])
      go [] = tt
      go (_ ∷ _) = after_subarray-Advances (length s) (skip_blanks s) st (length-skip_blanks s) k

  after_element-Advances :
      (limit : ℕ) (s : Bytes) (st : State Obj)
      → length s ≤ limit
      → length st.stack ≤ depth
      → Ensures (Advances limit) Overrun (after_element m delim depth s st)
  unfolding after_element
  after_element-Advances limit [] st h k = tt
  after_element-Advances limit (c ∷ s) st h k = ground (arith, length-skip_blanks s)

  element_value-Ensures :
      (limit : ℕ) (k : Token)
      → IsSafe limit k
      → 0 < length k.rest
      → Ensures (λ (v : Obj). Unit) Overrun (element_value m delim depth k)
  unfolding element_value
  element_value-Ensures limit k h more = elim (Bool-cases k.null) [
    | inl e ↦ simp e tt
    | inr e ↦ simp e (
        bind-Ensures _ _ _ (token_bytes k) _ (token_bytes-Ensures limit k h more)
          (λ b le. converted-Ensures _ (m.convert b)))
  ]

  append_element-Advances :
      (limit : ℕ) (k : Token) (st : State Obj)
      → IsSafe limit k
      → length st.stack ≤ depth
      → Ensures (Advances limit) Overrun (append_element m delim depth k st)
  unfolding append_element
  append_element-Advances limit k st h d = go k.rest refl
    where
      go :
          (s : Bytes)
          → k.rest ≡ s
          → Ensures (Advances limit) Overrun (elim s [
            | [] ↦ ok (leave (record st { s = [] }))
            | c ∷ t ↦ element_value m delim depth k >>= λ v.
                after_element m delim depth (c ∷ t) (record st { result = st.result ++ (v ∷ []) })
          ])
      go [] e = tt
      go (c ∷ t) e =
          let size : length k.rest ≡ suc (length t) = rw e refl in
          bind-Ensures _ _ _ (element_value m delim depth k) _
            (element_value-Ensures limit k h (omega arith))
            (λ v _.
              after_element-Advances limit (c ∷ t) (record st { result = st.result ++ (v ∷ []) })
                (omega (arith, h.shorter)) d)

  push_level-Advances :
      (limit : ℕ) (s : Bytes) (st : State Obj)
      → length s ≤ limit
      → length st.stack < depth
      → depth < max_array_depth
      → Ensures (Advances limit) Overrun (push_level m delim depth s st)
  unfolding push_level
  push_level-Advances limit [] st h k d = tt
  push_level-Advances limit (c ∷ s) st h k d = ground arith

  step-Advances :
      (c : ℕ) (s : Bytes) (st : State Obj)
      → length st.stack ≤ depth
      → depth < max_array_depth
      → Ensures (Advances (length s)) Overrun (step m delim depth c s st)
  unfolding step
  step-Advances c s st k d = ground (
    arith,
    close_level-Advances s st k,
    push_level-Advances (length s) (skip_blanks s) st (length-skip_blanks s),
    element,
  )
    where
      element :
          Ensures
            (Advances (length s))
            Overrun
            (token delim (c ∷ s) >>= λ k. append_element m delim depth k st)
      element =
          bind-Ensures _ _ _ (token delim (c ∷ s)) _ (token-IsSafe delim c s)
            (λ t h. append_element-Advances (length s) t st h k)

  -- what the next round can rely on
  abbrev pub Ready : ℕ → State Obj → Type 0
  Ready fuel st = (length st.s < fuel) × (length st.stack ≤ depth)

  pub round-Advances :
      (fuel : ℕ) (st : State Obj)
      → length st.s < suc fuel
      → length st.stack ≤ depth
      → depth < max_array_depth
      → Ensures
          (λ r. (st' : State Obj) → r ≡ next st' → Ready fuel st')
          Overrun
          (round m delim depth st)
  unfolding round
  round-Advances fuel st h k d = go st.s refl
    where
      go :
          (s : Bytes)
          → st.s ≡ s
          → Ensures
              (λ r. (st' : State Obj) → r ≡ next st' → Ready fuel st')
              Overrun
              (elim s [ [] ↦ ok (leave st) | c ∷ t ↦ step m delim depth c t st ])
      go [] e = λ st' n. cc
      go (c ∷ t) e =
          let size : length st.s ≡ suc (length t) = rw e refl in
          Ensures-mono _ _ _ (step m delim depth c t st) (step-Advances c t st k d)
            (λ r a st' n. let b = rw n at a in (omega arith, omega arith))

  -- With more fuel than bytes the loop ends.
  loop-Ensures :
      (fuel : ℕ) (st : State Obj)
      → length st.s < fuel
      → length st.stack ≤ depth
      → depth < max_array_depth
      → Ensures (λ (st' : State Obj). Unit) Overrun (loop m delim depth fuel st)
  unfolding loop
  loop-Ensures zero st h k d = absurd (omega arith)
  loop-Ensures (suc fuel) st h k d =
      bind-Ensures _ _ _ (round m delim depth st) (go_on (loop m delim depth fuel))
        (round-Advances fuel st h k d)
        (go_on-Ensures (loop m delim depth fuel) (Ready fuel)
          (λ st' r. loop-Ensures fuel st' r.0 r.1 d))

check_depth-Ensures :
    (ranges braces : ℕ) → Ensures (λ n. n < max_array_depth) Overrun (check_depth ranges braces)
unfolding check_depth
check_depth-Ensures ranges braces = ground arith

finish-Ensures :
    {Obj : Type 0} (st : State Obj) → Ensures (λ (r : List Obj). Unit) Overrun (finish st)
unfolding finish
finish-Ensures st = ground arith

-- With any text, options and conversion, `cast_array` returns a list or raises an error, or it
-- moves the pointer past the end of the text. It never needs more rounds than the text has bytes,
-- and never overflows the level stack or the buffer of an element, nor does the copy of an
-- element read behind the text.
pub cast_array-Ensures :
    {Obj : Type 0} (m : Maker Obj) (delim last : ℕ) (text : Bytes)
    → Ensures (λ (r : List Obj). Unit) (λ f. f ≡ moved_past_end) (cast_array m delim last text)
unfolding cast_array
cast_array-Ensures m delim last text =
    bind-Ensures (λ d. Unit {0}) _ _ (array_delimiter delim) _ (array_delimiter-Ensures delim)
      λ d _.
        bind-Ensures (λ r. Unit {0}) _ _ (dimensions last (skip_blanks text)) _
          (dimensions-Ensures last (skip_blanks text))
          λ r _.
            bind-Ensures (λ n. n < max_array_depth) _ _ (check_depth r.0 (leading_braces r.1)) _
              (check_depth-Ensures r.0 (leading_braces r.1))
              λ n small.
                bind-Ensures (λ t. length t + 1 ≤ length r.1) _ _ (next_nonblank r.1) _
                  (length-next_nonblank r.1)
                  λ t _.
                    bind-Ensures _ _ _
                      (loop m d n (suc (length t)) (record { s = t; stack = []; result = [] }))
                      finish
                      (loop-Ensures m d n (suc (length t))
                        (record { s = t; stack = []; result = [] }) (omega arith) (omega arith)
                        small)
                      (λ st _. finish-Ensures st)
