-- ===== src/Conn.antt =====
-- The connection object as a query uses it, how the methods of connections and queries end, and
-- `_conn_non_query_result` of pgconn.c.
pub mod Execute
pub mod Prepare
pub mod Methods
pub mod Attributes
pub mod Notice
pub mod Insert
pub mod Compose
pub mod Overrun
mod Tests
use py_gre_sql.Base.{
  ℕ, ℤ, Bool, [], ◌∷◌, Bytes, Option, none, some, ◌==◌, if◌then◌else◌, codes, ◌⊎◌, inl, inr,
}
use py_gre_sql.Settings.{Settings}
use py_gre_sql.Python.{Python}
use py_gre_sql.Outcome.{Outcome, CastError, Fault, ok, err, fault, out_of_fuel}
use py_gre_sql.Errors.{Raised, programming_error, set_error}
use py_gre_sql.Libpq.{
  Libpq, Status, tuples_ok, command_ok, copy_out, copy_in, empty_query, bad_response, fatal_error,
  nonfatal_error, other_status,
}
use py_gre_sql.Source.{Connection}

-- MAX_BUFFER_SIZE
abbrev pub max_buffer_size : ℕ
max_buffer_size = 8192

-- `connObject`, with the external typecast function and the callback function for notices
pub record ConnObject (py : Python) (pq : Libpq) : Type 0 where
  pub base : Connection pq
  pub cast_hook : Option py.Obj
  pub notice_receiver : Option py.Obj

-- The exceptions of the methods. `command_failed` is what `set_error` makes of the message of the
-- connection; `not_cast` and `not_encoded` are those of a conversion, and `cast_error` those that
-- the parsers set.
pub data CallError : Type 0 where
  not_connected empty_text unknown_result : CallError
  command_failed : Raised → CallError
  message_raised : Bytes → CallError
  not_cast not_encoded : CallError
  cast_error : CastError → CallError
  stop_iteration index_error : CallError
  multiple_results no_result_found no_fields : CallError
  invalid_number unknown_name unknown_index field_expected integer_expected name_expected :
      CallError
  string_expected sequence_expected no_string_form : CallError
  bad_internal_call : CallError
  rows_expected row_expected columns_expected sizes_differ out_of_memory : CallError
  buffer_exceeded callable_expected already_closed no_notice : CallError

-- How a method ends. `undefined` is a step outside of what C defines, `unfinished` a parser whose
-- fuel was too little.
pub data Return (A : Type 0) : Type 0 where
  gives : A → Return A
  raises : CallError → Return A
  undefined : Fault → Return A
  unfinished : Return A

infixl 5 ◌>>=◌
abbrev pub ◌>>=◌ : {A B : Type 0} → Return A → (A → Return B) → Return B
gives a >>= f = f a
raises e >>= f = raises e
undefined u >>= f = undefined u
unfinished >>= f = unfinished

abbrev pub of_outcome : {A : Type 0} → Outcome A → Return A
of_outcome (ok a) = gives a
of_outcome (err e) = raises (cast_error e)
of_outcome (fault f) = undefined f
of_outcome out_of_fuel = unfinished

-- A conversion returns a null pointer with its exception set.
abbrev pub of_option : {A : Type 0} → Option A → Return A
of_option none = raises not_cast
of_option (some a) = gives a

module _ (py : Python) (g : Settings py.Obj) (pq : Libpq) where
  -- `ret[0]` for the number of affected rows
  abbrev affected_rows : Bytes → Option py.Obj
  affected_rows [] = none
  affected_rows (c ∷ s) = some (py.str_of (c ∷ s))

  -- the OID of a single insert, and else the number of affected rows if there is one
  abbrev command_value : pq.Answer → Option py.Obj
  command_value r =
      if pq.oid_value r == 0
      then affected_rows (pq.cmd_tuples r)
      else some (py.oid_of (pq.oid_value r))

  abbrev command_error : pq.Conn → pq.Answer → CallError
  command_error c r = command_failed (
      set_error g.encoding_ascii programming_error (codes "Cannot execute query") (record {
        message = some (pq.error_message c, pq.client_encoding c);
        state = pq.sqlstate r;
      }))

  -- `none` is None. The result is freed.
  unfoldable pub non_query_result : Status → pq.Answer → pq.Conn → CallError ⊎ Option py.Obj
  non_query_result empty_query r c = inl empty_text
  non_query_result bad_response r c = inl (command_error c r)
  non_query_result fatal_error r c = inl (command_error c r)
  non_query_result nonfatal_error r c = inl (command_error c r)
  non_query_result command_ok r c = inr (command_value r)
  non_query_result copy_out r c = inr none
  non_query_result copy_in r c = inr none
  non_query_result _ r c = inl unknown_result
