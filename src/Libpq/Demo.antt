-- ===== src/Libpq/Demo.antt =====
-- A concrete server for the tests.
use py_gre_sql.Base.{
  ℕ, zero, suc, ltb, ℤ, pos, negsuc, [], ◌∷◌, ◌++◌, true, false, Option, none, some, if◌then◌else◌,
  length, codes,
}
use py_gre_sql.Libpq.{Libpq, Cell, out_of_range, value, tuples_ok, copy_failed, line_end}

abbrev pub cell_of : ℕ → ℤ → Cell
cell_of n (pos k) = if ltb k n then value (k ∷ []) else out_of_range
cell_of n (negsuc k) = out_of_range

-- a server whose queries give as many rows as their texts have bytes
abbrev pub server : Libpq
server = record {
  Conn = ℕ;
  Answer = ℕ;
  client_encoding = λ c. 6;
  error_message = λ c. [];
  exec = λ c query. (c, some (length query));
  exec_params = λ c query params. (c, some (length params));
  exec_prepared = λ c name params. (c, some (length params));
  send_query = λ c query. (length query, true);
  send_query_params = λ c query params. (length params, true);
  prepare = λ c name query. (c, none);
  describe_prepared = λ c name. (c, none);
  get_result = λ c. (c, none);
  put_line = λ c s. (c, false);
  get_line = λ c n. (c, line_end);
  end_copy = λ c. (c, false);
  set_nonblocking = λ c z. (c, false);
  is_nonblocking = λ c. pos 0;
  escape_identifier = λ c s. some (b'"' ∷ s ++ (b'"' ∷ []));
  escape_literal = λ c s. some (b'x' ∷ s ++ (b'x' ∷ []));
  escape_string = λ c s. s;
  escape_bytea = λ c s. s;
  transaction_status = λ c. 0;
  parameter_status = λ c name. none;
  reset_conn = λ c. c;
  request_cancel = λ c. (c, pos 1);
  socket = λ c. pos 3;
  connect_poll = λ c. (c, 3);
  consume_input = λ c. c;
  notifies = λ c. (c, none);
  put_copy_data = λ c s. (c, pos 1);
  put_copy_end = λ c s. (c, pos 1);
  get_copy_data = λ c. (c, copy_failed);
  result_status = λ n. tuples_ok;
  ntuples = λ n. n;
  nfields = λ n. 1;
  cell = λ n k j. cell_of n k;
  fformat = λ n j. 0;
  cmd_status = λ n. [];
  cmd_tuples = λ n. [];
  oid_value = λ n. 0;
  sqlstate = λ n. none;
  fnumber = λ n name. negsuc 0;
  fname = λ n j. codes "a";
  ftype = λ n j. 25;
  fsize = λ n j. negsuc 0;
  fmod = λ n j. negsuc 0;
}

abbrev next_result : ℕ → ℕ × Option ℕ
next_result zero = (0, none)
next_result (suc n) = (n, some (suc n))

-- the same server with a connection that has so many results left, of fewer and fewer rows
abbrev pub streaming : Libpq
streaming = record server { get_result = next_result }
