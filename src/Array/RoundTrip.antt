-- ===== src/Array/RoundTrip.antt =====
-- What is printed is parsed back: the loop runs over a printed array, piece by piece.
use py_gre_sql.Base.{
  ℕ, zero, suc, ◌+◌, ◌<◌, [], ◌∷◌, ◌++◌, List, Bytes, ◌≡◌, refl, ap, arith, ◌∙◌, inl, inr, length,
  none, some, map, append-nil, append_assoc,
}
use py_gre_sql.Outcome.{ok}
use py_gre_sql.Scan.{skip_blanks, next_nonblank}
use py_gre_sql.Dimensions.{max_array_depth, array_delimiter, dimensions, leading_braces}
use py_gre_sql.Quoting.{quoted}
use py_gre_sql.Array.{
  Maker, State, leave, round, step, close_level, finish, check_depth, cast_array,
}
use py_gre_sql.Array.Printer.{shown, separated, printed, IsDelimiter, Nested, value, LeadsDown}
use py_gre_sql.Array.Rounds.{
  Rounds, here, more, Rounds-trans, loop-Rounds, round_open, round_close, round_close_delim,
  round-shown, after_element_close, after_element_delim, StartsNonblank,
}

StartsNonblank-shown :
    (delim d : ℕ) (x : Nested d) (rest : Bytes) → StartsNonblank (shown delim d x rest)
unfolding shown
StartsNonblank-shown delim zero none rest = (_, _, refl, omega arith)
StartsNonblank-shown delim zero (some b) rest = (_, _, refl, omega arith)
StartsNonblank-shown delim (suc d) x rest = (_, _, refl, omega arith)

StartsNonblank-separated :
    (delim d : ℕ) (xs : Nested (suc d)) (rest : Bytes)
    → StartsNonblank (separated (shown delim d) delim xs (b'}' ∷ rest))
unfolding separated
StartsNonblank-separated delim d [] rest = (_, _, refl, omega arith)
StartsNonblank-separated delim d (x ∷ []) rest = StartsNonblank-shown delim d x _
StartsNonblank-separated delim d (x ∷ y ∷ xs) rest = StartsNonblank-shown delim d x _

module _ {Obj : Type 0} (m : Maker Obj) (f : Bytes → Obj) (delim depth : ℕ) where
  abbrev at_state : Bytes → List (List Obj) → List Obj → State Obj
  at_state s stack result = record { s = s; stack = stack; result = result }

  -- A printed value `d` levels above the elements is appended, before a right brace and before a
  -- delimiter with another value.
  abbrev Appends : (d : ℕ) → Nested d → Type 0
  Appends d x =
      (u : Bytes) (stack : List (List Obj)) (result : List Obj)
      → length stack + d ≡ depth
      → Rounds m delim depth (at_state (b'}' ∷ u) stack (result ++ (value m f d x ∷ [])))
          (at_state (shown delim d x (b'}' ∷ u)) stack result)
        × ((y : Nested d)
            → Rounds m delim depth
                (at_state (shown delim d y u) stack (result ++ (value m f d x ∷ [])))
                (at_state (shown delim d x (delim ∷ shown delim d y u)) stack result))

  Rounds-separated :
      (d : ℕ) (xs : Nested (suc d)) (u : Bytes) (stack : List (List Obj)) (result : List Obj)
      → ((x : Nested d) → Appends d x)
      → length stack + d ≡ depth
      → Rounds m delim depth
          (at_state (b'}' ∷ u) stack (result ++ map (value m f d) xs))
          (at_state (separated (shown delim d) delim xs (b'}' ∷ u)) stack result)
  unfolding separated
  Rounds-separated d [] u stack result each h = here (rw append-nil)
  Rounds-separated d (x ∷ []) u stack result each h = (each x u stack result h).0
  Rounds-separated d (x ∷ y ∷ []) u stack result each h =
      Rounds-trans m delim depth ((each x (b'}' ∷ u) stack result h).1 y) (
        rw append_assoc at
          (Rounds-separated d (y ∷ []) u stack (result ++ (value m f d x ∷ [])) each h))
  Rounds-separated d (x ∷ y ∷ z ∷ xs) u stack result each h =
      Rounds-trans m delim depth
        ((each x (delim ∷ separated (shown delim d) delim (z ∷ xs) (b'}' ∷ u)) stack result h).1 y)
        (rw append_assoc at
          (Rounds-separated d (y ∷ z ∷ xs) u stack (result ++ (value m f d x ∷ [])) each h))

  module _ (converts : (b : Bytes) → m.convert b ≡ some (f b)) (i : IsDelimiter delim)
      (small : depth < max_array_depth) where
    Appends-shown : (d : ℕ) (x : Nested d) → Appends d x
    unfolding shown value
    Appends-shown zero x u stack result h =
        let level : length stack ≡ depth = omega arith in
        let read = round-shown m delim depth f converts x in
        (
          more
              (read b'}' u stack result i level (inr refl)
                ∙ after_element_close m delim depth u _ i.not_close)
              (here refl),
          λ y.
              more
                (read delim (shown delim 0 y u) stack result i level (inl refl)
                  ∙ after_element_delim m delim depth (shown delim 0 y u) _
                      (StartsNonblank-shown delim 0 y u))
                (here refl),
        )
    Appends-shown (suc d) x u stack result h =
        let below : length (result ∷ stack) + d ≡ depth = omega arith in
        let inside =
          λ (w : Bytes). Rounds-separated d x w (result ∷ stack) [] (Appends-shown d) below in
        let open_list = λ (w : Bytes).
          round_open m delim depth (separated (shown delim d) delim x (b'}' ∷ w)) stack result
            (omega arith) small (StartsNonblank-separated delim d x w) in
        (
          more (open_list (b'}' ∷ u)) (
              Rounds-trans m delim depth (inside (b'}' ∷ u))
                (more (round_close m delim depth u result stack _ i.not_close) (here refl))),
          λ y. more (open_list (delim ∷ shown delim (suc d) y u)) (
              Rounds-trans m delim depth (inside (delim ∷ shown delim (suc d) y u))
                (more (round_close_delim m delim depth _ result stack _ i.not_blank) (here refl))),
        )

leading_braces-separated :
    (delim d : ℕ) (xs : Nested (suc d)) (rest : Bytes)
    → LeadsDown d xs
    → leading_braces (separated (shown delim d) delim xs (b'}' ∷ rest)) ≡ d
unfolding leading_braces shown separated quoted
leading_braces-separated delim zero [] rest h = refl
leading_braces-separated delim zero (none ∷ []) rest h = refl
leading_braces-separated delim zero (some b ∷ []) rest h = refl
leading_braces-separated delim zero (none ∷ y ∷ xs) rest h = refl
leading_braces-separated delim zero (some b ∷ y ∷ xs) rest h = refl
leading_braces-separated delim (suc d) [] rest h = elim h [ ]
leading_braces-separated delim (suc d) (x ∷ []) rest h =
    ap suc (leading_braces-separated delim d x _ h)
leading_braces-separated delim (suc d) (x ∷ y ∷ xs) rest h =
    ap suc (leading_braces-separated delim d x _ h)

array_delimiter_lem : (delim : ℕ) → IsDelimiter delim → array_delimiter delim ≡ ok delim
unfolding array_delimiter
array_delimiter_lem delim i = ground arith

check_depth_lem : (d : ℕ) → d < max_array_depth → check_depth 0 (suc d) ≡ ok d
unfolding check_depth
check_depth_lem d h = ground arith

skip_blanks_nonblank : (t : Bytes) → StartsNonblank t → skip_blanks t ≡ t
unfolding skip_blanks
skip_blanks_nonblank t (c, s, e, nb) = rw e (ground arith)

round_last :
    {Obj : Type 0} (m : Maker Obj) (delim depth : ℕ) (result : List Obj)
    → round m delim depth (record { s = b'}' ∷ []; stack = []; result = result })
      ≡ ok (leave (record { s = b'}' ∷ []; stack = []; result = result }))
unfolding round step close_level
round_last m delim depth result = refl

-- `cast_array` reads back what is printed: a list nested at most 16 deep over texts and NULL,
-- with no empty list above the innermost along its first items, printed with a delimiter that
-- has no other meaning, gives the lists of what the conversion makes of its texts.
pub cast_array-printed :
    {Obj : Type 0} (m : Maker Obj) (f : Bytes → Obj) (delim last d : ℕ) (xs : Nested (suc d))
    → ((b : Bytes) → m.convert b ≡ some (f b))
    → IsDelimiter delim
    → d < max_array_depth
    → LeadsDown d xs
    → cast_array m delim last (printed delim d xs) ≡ ok (map (value m f d) xs)
unfolding cast_array shown skip_blanks dimensions leading_braces next_nonblank finish
cast_array-printed m f delim last d xs converts i small leads =
    let t = separated (shown delim d) delim xs (b'}' ∷ []) in
    let runs =
      Rounds-separated m f delim d d xs [] [] [] (Appends-shown m f delim d converts i small d)
        (omega arith) in
    rw (array_delimiter_lem delim i) (
      rw (leading_braces-separated delim d xs [] leads) (
        rw (check_depth_lem d small) (
          rw (skip_blanks_nonblank t (StartsNonblank-separated delim d xs [])) (
            rw
              (loop-Rounds m delim d (suc (length t)) runs (round_last m delim d _) (omega arith)
                (omega arith) small)
              refl))))
