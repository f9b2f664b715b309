-- ===== src/Source/Execute.antt =====
-- `source_execute` of pgsource.c.
use py_gre_sql.Base.{
  ℕ, zero, suc, ◌+◌, ◌*◌, ◌-◌, ℤ, pos, negsuc, ◌||◌, ◌&&◌, leb, [], ◌∷◌, Bytes, Option, none, some,
  ◌==◌, if◌then◌else◌, codes, ◌⊎◌, inl, inr,
}
use py_gre_sql.Dimensions.{is_digit}
use py_gre_sql.Settings.{Settings}
use py_gre_sql.Python.{Python}
use py_gre_sql.Convert.{get_encoded_string}
use py_gre_sql.Errors.{programming_error, set_error}
use py_gre_sql.Libpq.{
  Libpq, Status, tuples_ok, command_ok, copy_out, copy_in, empty_query, other_status,
}
use py_gre_sql.Source.{
  Source, Failure, Reply, Argument, byte_string, unicode, returned, raised, null_pointer,
  value_error, empty_query_sent, unknown_status, not_encodable, argument_expected, failed,
  result_empty, result_dml, result_ddl, result_dql, check_cnx, checked,
}

-- `atol`: the digits from the start on, after spaces and a sign
abbrev pub digits_value : ℕ → Bytes → ℕ
digits_value n [] = n
digits_value n (c ∷ s) =
    let rest = digits_value (n * 10 + (c - b'0')) s in if is_digit c then rest else n

abbrev pub skip_spaces : Bytes → Bytes
skip_spaces [] = []
skip_spaces (c ∷ s) =
    let rest = skip_spaces s in if c == b' ' || (leb 9 c && leb c 13) then rest else c ∷ s

abbrev pub negated : ℕ → ℤ
negated zero = pos 0
negated (suc n) = negsuc n

abbrev pub signed_value : Bytes → ℤ
signed_value [] = pos 0
signed_value (c ∷ s) =
    if c == b'-'
    then negated (digits_value 0 s)
    else if c == b'+'
    then pos (digits_value 0 s)
    else pos (digits_value 0 (c ∷ s))

-- `tmp[0] ? atol (tmp) : -1` for the text of `PQcmdTuples`
unfoldable pub row_count : Bytes → ℤ
row_count [] = negsuc 0
row_count (c ∷ s) = signed_value (skip_spaces (c ∷ s))

module _ (py : Python) (g : Settings py.Obj) (pq : Libpq) where
  -- the text of the query for the server
  unfoldable pub query_text : ℕ → Argument py.Obj → Failure ⊎ Bytes
  query_text encoding (byte_string s) = inr s
  query_text encoding (unicode o) = elim (get_encoded_string py g o encoding) [
    | none ↦ inl not_encodable
    | some s ↦ inr s
  ]
  query_text encoding _ = inl argument_expected

  -- the previous result is gone
  abbrev pub reset : ℕ → Source pq → Source pq
  reset encoding self = record self {
    result = none;
    max_row = 0;
    current_row = pos 0;
    num_fields = 0;
    encoding = encoding;
  }

  -- `PQclear (self->result); self->result = NULL; self->result_type = RESULT_EMPTY;`
  abbrev pub clear_result : Source pq → Source pq
  clear_result self = record self { result = none; result_type = result_empty }

  -- a command without rows: how many it affected, or -1
  abbrev pub command_done : Source pq → Bytes → Source pq
  command_done self [] = record self { result_type = result_ddl }
  command_done self (c ∷ s) = record self { result_type = result_dml }

  -- The reply is None for a query with rows, and else the number of rows.
  unfoldable pub by_status : Source pq → pq.Conn → pq.Answer → Status → Source pq × Reply (Option ℤ)
  by_status self c r tuples_ok = (
    record self { result_type = result_dql; max_row = pq.ntuples r; num_fields = pq.nfields r },
    returned none,
  )
  by_status self c r command_ok =
      (command_done self (pq.cmd_tuples r), returned (some (row_count (pq.cmd_tuples r))))
  by_status self c r copy_out =
      (command_done self (pq.cmd_tuples r), returned (some (row_count (pq.cmd_tuples r))))
  by_status self c r copy_in =
      (command_done self (pq.cmd_tuples r), returned (some (row_count (pq.cmd_tuples r))))
  by_status self c r empty_query = (clear_result self, raised empty_query_sent)
  by_status self c r other_status = (clear_result self, raised unknown_status)
  by_status self c r _ = (
    clear_result self,
    raised (
        failed (
          set_error g.encoding_ascii programming_error (codes "Cannot execute command") (record {
            message = some (pq.error_message c, pq.client_encoding c);
            state = pq.sqlstate r;
          }))),
  )

  abbrev pub with_cnx : Source pq → pq.Conn → Source pq
  with_cnx self c = record self { pgcnx = record self.pgcnx { cnx = some c } }

  -- A result that is there resets the connection's date format.
  abbrev pub take_result : Source pq → (pq.Conn × Option pq.Answer) → Source pq × Reply (Option ℤ)
  take_result self (c, none) = (with_cnx self c, raised (value_error (pq.error_message c)))
  take_result self (c, some r) =
      by_status
        (record self {
          result = some r;
          pgcnx = record self.pgcnx { cnx = some c; date_format = g.date_format };
        })
        c r (pq.result_status r)

  abbrev pub run_query : Source pq → pq.Conn → (Failure ⊎ Bytes) → Source pq × Reply (Option ℤ)
  run_query self c (inl f) = (self, raised f)
  run_query self c (inr query) = take_result (reset (pq.client_encoding c) self) (pq.exec c query)

  -- the body of `execute`, where the check has found a connection
  abbrev pub execute_on :
      Source pq → Argument py.Obj → Option pq.Conn → Source pq × Reply (Option ℤ)
  execute_on self sql none = (self, null_pointer)
  execute_on self sql (some c) = run_query self c (query_text (pq.client_encoding c) sql)

  unfoldable pub source_execute : Source pq → Argument py.Obj → Source pq × Reply (Option ℤ)
  source_execute self sql = checked self check_cnx (execute_on self sql self.pgcnx.cnx)
