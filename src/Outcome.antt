-- ===== src/Outcome.antt =====
-- How a parser of pginternal.c ends: with a value, with the ValueError that it sets, with the
-- exception that a conversion has set, or outside of what C defines. The loops take fuel, and
-- `out_of_fuel` says that it was too little.
use py_gre_sql.Base.{Option, none, some}

-- The messages of `PyErr_SetString (PyExc_ValueError, ...)` in the three parsers.
pub data CastError : Type 0 where
  bad_array_delimiter bad_dimensions no_left_brace dimensions_mismatch too_deep : CastError
  subarray_expected subarray_unexpected subarray_brace unexpected_array_end : CastError
  characters_after_array : CastError
  bad_record_delimiter no_left_parenthesis too_many_columns too_few_columns : CastError
  unexpected_record_end characters_after_record : CastError
  unterminated_quote missing_key missing_value missing_entry : CastError
  characters_after_key characters_after_value : CastError
  -- the exception of a conversion function, passed on
  conversion_failed : CastError

-- What no run may do: move the pointer past `end`, from where it may run on, read at or behind
-- `end` what is not text, write past an allocated buffer or the level stack, or use bytes of a
-- buffer that were never written, or use a null pointer or freed memory as a text or an object.
pub data Fault : Type 0 where
  moved_past_end read_past_end stack_overflow buffer_overflow uninitialised null_access : Fault
  use_after_free : Fault

pub data Outcome {ℓ} (A : Type ℓ) : Type ℓ where
  ok : A → Outcome A
  err : CastError → Outcome A
  fault : Fault → Outcome A
  out_of_fuel : Outcome A

infixl 5 ◌>>=◌
abbrev pub ◌>>=◌ {ℓ κ} : {A : Type ℓ} {B : Type κ} → Outcome A → (A → Outcome B) → Outcome B
ok a >>= f = f a
err e >>= f = err e
fault e >>= f = fault e
out_of_fuel >>= f = out_of_fuel

-- A conversion that returns NULL ends the parser.
abbrev pub converted {ℓ} : {A : Type ℓ} → Option A → Outcome A
converted none = err conversion_failed
converted (some a) = ok a

-- A value of `P`, an error, or a fault of `Q`; never too little fuel.
abbrev pub Ensures : {A : Type 0} → (A → Type 0) → (Fault → Type 0) → Outcome A → Type 0
Ensures P Q (ok a) = P a
Ensures P Q (err e) = Unit
Ensures P Q (fault f) = Q f
Ensures P Q out_of_fuel = ⊥

pub bind-Ensures :
    {A B : Type 0} (P : A → Type 0) (R : B → Type 0) (Q : Fault → Type 0) (m : Outcome A)
    (f : A → Outcome B)
    → Ensures P Q m
    → ((a : A) → P a → Ensures R Q (f a))
    → Ensures R Q (m >>= f)
bind-Ensures P R Q (ok a) f h k = k a h
bind-Ensures P R Q (err e) f h k = tt
bind-Ensures P R Q (fault e) f h k = h
bind-Ensures P R Q out_of_fuel f h k = h

pub Ensures-mono :
    {A : Type 0} (P R : A → Type 0) (Q : Fault → Type 0) (m : Outcome A)
    → Ensures P Q m
    → ((a : A) → P a → R a)
    → Ensures R Q m
Ensures-mono P R Q (ok a) h k = k a h
Ensures-mono P R Q (err e) h k = tt
Ensures-mono P R Q (fault e) h k = h
Ensures-mono P R Q out_of_fuel h k = h

pub converted-Ensures :
    {A : Type 0} (Q : Fault → Type 0) (o : Option A) → Ensures (λ (a : A). Unit {0}) Q (converted o)
converted-Ensures Q none = tt
converted-Ensures Q (some a) = tt
