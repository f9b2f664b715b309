-- ===== src/Source/Copy.antt =====
-- `source_putdata` and `source_getdata` of pgsource.c.
use py_gre_sql.Base.{
  ℕ, ℤ, pos, negsuc, Bool, true, false, [], ◌∷◌, Bytes, Option, none, some, ◌==◌, if◌then◌else◌,
  ◌⊎◌, inl, inr, ◌+◌,
}
use py_gre_sql.Settings.{Settings}
use py_gre_sql.Python.{Python}
use py_gre_sql.Convert.{get_encoded_string, get_decoded_string}
use py_gre_sql.Libpq.{
  Libpq, Status, command_ok, copy_out, copy_in, status_of, CopyData, copied, copy_done, copy_failed,
}
use py_gre_sql.Source.{
  Source, Failure, Reply, Argument, byte_string, unicode, none_value, exception, other_value,
  returned, raised, null_pointer, not_encodable, argument_expected, copy_state_expected,
  copy_failure, check_cnx, check_result, checked, check_source_obj,
}
use py_gre_sql.Source.Execute.{row_count, clear_result, with_cnx}

-- what `putdata` sends: data, or the end of the operation with an error message or without
pub data Sent : Type 0 where
  data_sent : Bytes → Sent
  end_sent : Option Bytes → Sent

abbrev pub is_copy_in : Status → Bool
is_copy_in copy_in = true
is_copy_in _ = false

abbrev pub is_copy_out : Status → Bool
is_copy_out copy_out = true
is_copy_out _ = false

-- what a COPY gives: one more row, or at the end the number of rows
pub data Received (Obj : Type 0) : Type 0 where
  row_received : Obj → Received Obj
  rows_counted : ℤ → Received Obj

module _ (py : Python) (g : Settings py.Obj) (pq : Libpq) where
  abbrev pub encoded_as : ℕ → py.Obj → (Bytes → Sent) → Failure ⊎ Sent
  encoded_as encoding o k = elim (get_encoded_string py g o encoding) [
    | none ↦ inl not_encodable
    | some s ↦ inr (k s)
  ]

  unfoldable pub what_is_sent : ℕ → Argument py.Obj → Failure ⊎ Sent
  what_is_sent encoding none_value = inr (end_sent none)
  what_is_sent encoding (byte_string s) = inr (data_sent s)
  what_is_sent encoding (unicode o) = encoded_as encoding o data_sent
  what_is_sent encoding (exception o) = encoded_as encoding o (λ s. end_sent (some s))
  what_is_sent encoding other_value = inl argument_expected

  -- the final result of the operation: the number of rows, or the message `message`
  unfoldable pub final_count : Option pq.Answer → Bytes → Reply ℤ
  final_count none message = raised (copy_failure message)
  final_count (some r) message = elim (pq.result_status r) [
    | command_ok ↦ returned (row_count (pq.cmd_tuples r))
    | _ ↦ raised (copy_failure message)
  ]

  abbrev pub or_message : Option Bytes → Bytes → Bytes
  or_message none m = m
  or_message (some e) m = e

  abbrev pub succeeded : ℤ → Bool
  succeeded (pos n) = n == 1
  succeeded (negsuc n) = false

  abbrev pub mapped : {A B : Type 0} → (A → B) → Reply A → Reply B
  mapped f (returned a) = returned (f a)
  mapped f (raised e) = raised e
  mapped f null_pointer = null_pointer

  -- after `PQputCopyData`, which is not called for the empty text
  abbrev pub data_put : Source pq → (pq.Conn × ℤ) → Source pq × Reply (Option ℤ)
  data_put self (c, res) =
      if succeeded res
      then (with_cnx py g pq self c, returned none)
      else (with_cnx py g pq self c, raised (copy_failure (pq.error_message c)))

  -- after `PQgetResult`
  abbrev pub copy_ended :
      Source pq → Option Bytes → (pq.Conn × Option pq.Answer) → Source pq × Reply (Option ℤ)
  copy_ended self errormsg (c, r) = (
    clear_result py g pq (with_cnx py g pq self c),
    mapped some (final_count r (or_message errormsg (pq.error_message c))),
  )

  -- after `PQputCopyEnd`
  abbrev pub end_put : Source pq → Option Bytes → (pq.Conn × ℤ) → Source pq × Reply (Option ℤ)
  end_put self errormsg (c, res) =
      if succeeded res
      then copy_ended self errormsg (pq.get_result c)
      else (with_cnx py g pq self c, raised (copy_failure (pq.error_message c)))

  abbrev pub send : Source pq → pq.Conn → Sent → Source pq × Reply (Option ℤ)
  send self c (data_sent []) = data_put self (c, pos 1)
  send self c (data_sent (x ∷ s)) = data_put self (pq.put_copy_data c (x ∷ s))
  send self c (end_sent errormsg) = end_put self errormsg (pq.put_copy_end c errormsg)

  -- a failed check of the state of the copy, which the code makes after that of the argument
  unfoldable pub in_copy_state : (Status → Bool) → Source pq → Bool
  in_copy_state wanted self = elim (check_source_obj self (check_cnx + check_result)) [
    | some f ↦ false
    | none ↦ wanted (status_of pq self.result)
  ]

  abbrev pub put_sent : Source pq → pq.Conn → (Failure ⊎ Sent) → Source pq × Reply (Option ℤ)
  put_sent self c (inl f) = (self, raised f)
  put_sent self c (inr d) =
      if in_copy_state is_copy_in self then send self c d else (self, raised copy_state_expected)

  abbrev pub put_on : Source pq → Argument py.Obj → Option pq.Conn → Source pq × Reply (Option ℤ)
  put_on self buffer none = (self, null_pointer)
  put_on self buffer (some c) = put_sent self c (what_is_sent (pq.client_encoding c) buffer)

  -- None for data, and the number of rows at the end
  unfoldable pub source_putdata : Source pq → Argument py.Obj → Source pq × Reply (Option ℤ)
  source_putdata self buffer = checked self check_cnx (put_on self buffer self.pgcnx.cnx)

  -- after `PQgetResult`
  abbrev pub copied_all :
      Source pq → (pq.Conn × Option pq.Answer) → Source pq × Reply (Received py.Obj)
  copied_all self (c, r) = (
    clear_result py g pq (with_cnx py g pq self c),
    mapped rows_counted (final_count r (pq.error_message c)),
  )

  abbrev pub decoded : Option py.Obj → Reply (Received py.Obj)
  decoded none = raised not_encodable
  decoded (some o) = returned (row_received o)

  abbrev pub data_got :
      Source pq → Bool → (pq.Conn × CopyData) → Source pq × Reply (Received py.Obj)
  data_got self decode (c, copy_failed) =
      (with_cnx py g pq self c, raised (copy_failure (pq.error_message c)))
  data_got self decode (c, copy_done) = copied_all self (pq.get_result c)
  data_got self decode (c, copied s) = (
    with_cnx py g pq self c,
    (if decode
        then decoded (get_decoded_string py g s (pq.client_encoding c))
        else returned (row_received (py.bytes_of s))),
  )

  -- `none` is an argument that is no int
  abbrev pub get_on : Source pq → Option Bool → Option pq.Conn → Source pq × Reply (Received py.Obj)
  get_on self decode none = (self, null_pointer)
  get_on self none (some c) = (self, raised argument_expected)
  get_on self (some decode) (some c) =
      if in_copy_state is_copy_out self
      then data_got self decode (pq.get_copy_data c)
      else (self, raised copy_state_expected)

  unfoldable pub source_getdata : Source pq → Option Bool → Source pq × Reply (Received py.Obj)
  source_getdata self decode = checked self check_cnx (get_on self decode self.pgcnx.cnx)
