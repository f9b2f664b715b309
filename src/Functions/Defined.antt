-- ===== src/Functions/Defined.antt =====
-- `pg_cast_record` of pgmodule.c stays within what C defines, whatever its arguments are.
use py_gre_sql.Base.{ℕ, List, [], ◌∷◌, Bytes, Option, none, some, get_elem?}
use py_gre_sql.Settings.{Settings}
use py_gre_sql.Python.{Python, utf8}
use py_gre_sql.Outcome.{
  Outcome, ok, err, fault, out_of_fuel, Ensures, bind-Ensures, converted-Ensures,
}
use py_gre_sql.Elements.{external_text}
use py_gre_sql.Record.{cast_record}
use py_gre_sql.Record.Safety.{cast_record-Ensures}
use py_gre_sql.Record.Cast.{
  FieldCasts, no_cast, one_cast, column_casts, columns, column_field, external_field, cast_field,
  record_maker, cast_record_value,
}
use py_gre_sql.Source.{Argument, byte_string, unicode, none_value, exception, other_value}
use py_gre_sql.Conn.{Return, gives, raises, undefined, unfinished, ◌>>=◌, of_outcome}
use py_gre_sql.Functions.{
  RecordCast, cast_missing, cast_callable, cast_items, cast_unusable, encoded, string_argument,
  record_casts, pg_cast_record,
}

-- a value or an exception
abbrev pub IsDefined : {A : Type 0} → Return A → Type 0
IsDefined (gives a) = Unit
IsDefined (raises e) = Unit
IsDefined (undefined f) = ⊥
IsDefined unfinished = ⊥

of_outcome-IsDefined :
    {A : Type 0} (o : Outcome A) → Ensures (λ a. Unit) (λ f. ⊥) o → IsDefined (of_outcome o)
of_outcome-IsDefined (ok a) h = tt
of_outcome-IsDefined (err e) h = tt
of_outcome-IsDefined (fault f) h = h
of_outcome-IsDefined out_of_fuel h = h

bind-IsDefined :
    {A B : Type 0} (r : Return A) (f : A → Return B)
    → IsDefined r
    → ((a : A) → IsDefined (f a))
    → IsDefined (r >>= f)
bind-IsDefined (gives a) f h k = k a
bind-IsDefined (raises e) f h k = tt
bind-IsDefined (undefined u) f h k = h
bind-IsDefined unfinished f h k = h

module _ (py : Python) (g : Settings py.Obj) (garbage : Bytes) where
  column_field-Ensures :
      (encoding : ℕ) (f : Option (Option py.Obj)) (o : py.Obj)
      → Ensures (λ (v : py.Obj). Unit {0}) (λ f. ⊥) (column_field py g garbage encoding f o)
  column_field-Ensures e none o = tt
  column_field-Ensures e (some none) o = tt
  column_field-Ensures e (some (some f)) o = converted-Ensures (λ f. ⊥) (py.call f (o ∷ []))

  external_field-Ensures :
      (encoding : ℕ) (casts : FieldCasts py.Obj) (i : ℕ) (o : py.Obj)
      → Ensures (λ (v : py.Obj). Unit {0}) (λ f. ⊥) (external_field py g garbage encoding casts i o)
  external_field-Ensures e no_cast i o = tt
  external_field-Ensures e (one_cast f) i o = converted-Ensures (λ f. ⊥) (py.call f (o ∷ []))
  external_field-Ensures e (column_casts fs) i o = column_field-Ensures e (get_elem? fs i) o

  cast_record_value-Ensures :
      (encoding : ℕ) (casts : FieldCasts py.Obj) (delim : ℕ) (s : Bytes)
      → Ensures
          (λ (v : py.Obj). Unit {0})
          (λ f. ⊥)
          (cast_record_value py g garbage encoding none casts delim s)
  unfolding cast_record_value
  cast_record_value-Ensures e casts delim s =
      let m = record_maker py g garbage e none casts in
      bind-Ensures {A = List py.Obj} {B = py.Obj} (λ l. Unit) (λ v. Unit) (λ f. ⊥)
        (cast_record m delim (columns casts) s) (λ l. ok (py.tuple_of l))
        (cast_record-Ensures m (λ f. ⊥) delim (columns casts) s
          λ i c b.
            unfold record_maker cast_field in
            external_field-Ensures e casts i (external_text py g garbage e b))
        (λ l _. tt)

  encoded-IsDefined : (s : Option Bytes) → IsDefined (encoded py g s)
  encoded-IsDefined none = tt
  encoded-IsDefined (some s) = tt

  string_argument-IsDefined : (string : Argument py.Obj) → IsDefined (string_argument py g string)
  unfolding string_argument
  string_argument-IsDefined (byte_string s) = tt
  string_argument-IsDefined (unicode o) =
      bind-IsDefined (encoded py g (py.encode utf8 o)) _ (encoded-IsDefined (py.encode utf8 o))
        λ s. tt
  string_argument-IsDefined none_value = tt
  string_argument-IsDefined (exception o) = tt
  string_argument-IsDefined other_value = tt

  record_casts-IsDefined : (cast : RecordCast py.Obj) → IsDefined (record_casts py g cast)
  unfolding record_casts
  record_casts-IsDefined cast_missing = tt
  record_casts-IsDefined (cast_callable f) = tt
  record_casts-IsDefined (cast_items []) = tt
  record_casts-IsDefined (cast_items (f ∷ fs)) = tt
  record_casts-IsDefined cast_unusable = tt

  -- With any text, casts and delimiter, cast_record() of the module returns a tuple or raises an
  -- exception: it reads and writes only what it may, and ends.
  pub pg_cast_record-IsDefined :
      (string : Argument py.Obj) (cast : RecordCast py.Obj) (delim : ℕ)
      → IsDefined (pg_cast_record py g garbage string cast delim)
  unfolding pg_cast_record
  pg_cast_record-IsDefined string cast delim =
      bind-IsDefined (string_argument py g string) _ (string_argument-IsDefined string) λ t.
        bind-IsDefined (record_casts py g cast) _ (record_casts-IsDefined cast) λ casts.
          of_outcome-IsDefined (cast_record_value py g garbage t.1 none casts delim t.0)
            (cast_record_value-Ensures t.1 casts delim t.0)
