-- ===== src/Source/Executed.antt =====
-- What `fetch` does behind `execute`.
use py_gre_sql.Base.{
  ℕ, ◌+◌, ℤ, pos, true, false, Bytes, [], ◌∷◌, Option, none, some, ◌≡◌, sym, refl, inl, inr, arith,
  ap, ◌∙◌, Option-cases,
}
use mathlib.Core.Path.{subst}
use py_gre_sql.Settings.{Settings}
use py_gre_sql.Python.{Python}
use py_gre_sql.Convert.{get_encoded_string}
use py_gre_sql.Types.{is_set}
use py_gre_sql.Libpq.{
  Libpq, Status, tuples_ok, command_ok, copy_out, copy_in, empty_query, bad_response, fatal_error,
  nonfatal_error, other_status,
}
use py_gre_sql.Source.{
  Source, Failure, Reply, Argument, byte_string, unicode, none_value, exception, other_value,
  returned, raised, not_encodable, no_result, no_tuples, is_dql, check_cnx, check_result, check_dql,
  check_source_obj, check_cnx_obj,
}
use py_gre_sql.Source.Execute.{
  source_execute, by_status, query_text, take_result, reset, run_query, execute_on, command_done,
  clear_result, row_count,
}
use py_gre_sql.Source.Fetch.{source_fetch}
use py_gre_sql.Source.Checks.{checked-none, checked-some}
use py_gre_sql.Source.Rows.{Fetchable}

-- the source is open and its connection is there
abbrev pub IsOpen : {pq : Libpq} → Source pq → Type 0
IsOpen self = (self.valid ≡ true) × (self.pgcnx.valid ≡ true) × (is_set self.pgcnx.cnx ≡ true)

module _ {pq : Libpq} (self : Source pq) where
  IsOpen-check : check_source_obj self check_cnx ≡ none → IsOpen self
  unfolding check_source_obj check_cnx_obj
  IsOpen-check h = (ground arith, ground arith, ground arith)

  check-Fetchable :
      IsOpen self → is_set self.result ≡ true → is_dql self.result_type ≡ true → Fetchable self
  unfolding check_source_obj check_cnx_obj
  check-Fetchable h r d = rw (h.0, r, d, h.1, h.2) refl

  check-no_tuples :
      IsOpen self
      → is_set self.result ≡ true
      → is_dql self.result_type ≡ false
      → check_source_obj self (check_result + check_dql + check_cnx) ≡ some no_tuples
  unfolding check_source_obj
  check-no_tuples h r d = rw (h.0, r, d) refl

  check-no_result :
      IsOpen self
      → is_set self.result ≡ false
      → check_source_obj self (check_result + check_dql + check_cnx) ≡ some no_result
  unfolding check_source_obj
  check-no_result h r = rw (h.0, r) refl

module _ (py : Python) (g : Settings py.Obj) (pq : Libpq) (args : Option (Option ℤ)) where
  -- The three ways in which a query that was sent may end. With rows: None is returned, the result is
  -- the one that the server gave, and all of its rows can be fetched from the first on.
  abbrev pub GivesRows : pq.Answer → Source pq × Reply (Option ℤ) → Type 0
  GivesRows r out =
      (out.1 ≡ returned none)
      × Fetchable out.0
      × (out.0.result ≡ some r)
      × (out.0.current_row ≡ pos 0)
      × (out.0.max_row ≡ pq.ntuples r)
      × (out.0.num_fields ≡ pq.nfields r)

  -- as a command: a number is returned, and `fetch` says that there are no tuples
  abbrev pub GivesCount : pq.Answer → Source pq × Reply (Option ℤ) → Type 0
  GivesCount r out =
      (out.1 ≡ returned (some (row_count (pq.cmd_tuples r))))
      × (out.0.result ≡ some r)
      × (source_fetch py g pq out.0 args ≡ (out.0, raised no_tuples))

  -- with an exception: the result is gone, and `fetch` says so
  abbrev pub Fails : Source pq × Reply (Option ℤ) → Type 0
  Fails out =
      (f : Failure) × ((out.1 ≡ raised f)
        × (out.0.result ≡ none)
        × (source_fetch py g pq out.0 args ≡ (out.0, raised no_result)))

  -- the way that a result decides, by its status
  abbrev pub FollowsStatus : pq.Answer → Status → Source pq × Reply (Option ℤ) → Type 0
  FollowsStatus r tuples_ok out = GivesRows r out
  FollowsStatus r command_ok out = GivesCount r out
  FollowsStatus r copy_out out = GivesCount r out
  FollowsStatus r copy_in out = GivesCount r out
  FollowsStatus r _ out = Fails out

  abbrev pub Follows : Option pq.Answer → Source pq × Reply (Option ℤ) → Type 0
  Follows none out = Fails out
  Follows (some r) out = FollowsStatus r (pq.result_status r) out

  -- What can be sent: bytes as they are, and a text in the encoding of the connection.
  abbrev pub sent_text : ℕ → Argument py.Obj → Option Bytes
  sent_text encoding (byte_string s) = some s
  sent_text encoding (unicode o) = get_encoded_string py g o encoding
  sent_text encoding none_value = none
  sent_text encoding (exception o) = none
  sent_text encoding other_value = none

  -- An argument that cannot be sent is refused, and nothing changes; else the answer of the server
  -- decides.
  abbrev pub Decided : Source pq → pq.Conn → Option Bytes → Source pq × Reply (Option ℤ) → Type 0
  Decided self c none out = (f : Failure) × (out ≡ (self, raised f))
  Decided self c (some query) out =
      (out.0.pgcnx.cnx ≡ some (pq.exec c query).0) × Follows (pq.exec c query).1 out

  fetch-no_result :
      (self : Source pq)
      → IsOpen self
      → is_set self.result ≡ false
      → source_fetch py g pq self args ≡ (self, raised no_result)
  unfolding source_fetch
  fetch-no_result self h r = checked-some self 28 _ no_result (check-no_result self h r)

  fetch-no_tuples :
      (self : Source pq)
      → IsOpen self
      → is_set self.result ≡ true
      → is_dql self.result_type ≡ false
      → source_fetch py g pq self args ≡ (self, raised no_tuples)
  unfolding source_fetch
  fetch-no_tuples self h r d = checked-some self 28 _ no_tuples (check-no_tuples self h r d)

  command-GivesCount :
      (self : Source pq) (r : pq.Answer) (s : Bytes)
      → IsOpen self
      → self.result ≡ some r
      → pq.cmd_tuples r ≡ s
      → GivesCount r (command_done py g pq self s, returned (some (row_count s)))
  command-GivesCount self r [] h e k =
      (rw k refl, e, fetch-no_tuples (command_done py g pq self []) h (rw e refl) refl)
  command-GivesCount self r (x ∷ s) h e k =
      (rw k refl, e, fetch-no_tuples (command_done py g pq self (x ∷ s)) h (rw e refl) refl)

  cleared-Fails :
      (self : Source pq) (f : Failure) → IsOpen self → Fails (clear_result py g pq self, raised f)
  cleared-Fails self f h = (f, (refl, refl, fetch-no_result (clear_result py g pq self) h refl))

  by_status-Follows :
      (self : Source pq) (c : pq.Conn) (r : pq.Answer) (s : Status)
      → IsOpen self
      → self.result ≡ some r
      → self.current_row ≡ pos 0
      → FollowsStatus r s (by_status py g pq self c r s)
  unfolding by_status
  by_status-Follows self c r tuples_ok h e k = (
    refl,
    check-Fetchable (by_status py g pq self c r tuples_ok).0 h (rw e refl) refl,
    e,
    k,
    refl,
    refl,
  )
  by_status-Follows self c r command_ok h e k = command-GivesCount self r (pq.cmd_tuples r) h e refl
  by_status-Follows self c r copy_out h e k = command-GivesCount self r (pq.cmd_tuples r) h e refl
  by_status-Follows self c r copy_in h e k = command-GivesCount self r (pq.cmd_tuples r) h e refl
  by_status-Follows self c r empty_query h e k = cleared-Fails self _ h
  by_status-Follows self c r bad_response h e k = cleared-Fails self _ h
  by_status-Follows self c r fatal_error h e k = cleared-Fails self _ h
  by_status-Follows self c r nonfatal_error h e k = cleared-Fails self _ h
  by_status-Follows self c r other_status h e k = cleared-Fails self _ h

  command_cnx :
      (self : Source pq) (d : pq.Conn) (s : Bytes)
      → self.pgcnx.cnx ≡ some d
      → (command_done py g pq self s).pgcnx.cnx ≡ some d
  command_cnx self d [] e = e
  command_cnx self d (x ∷ s) e = e

  by_status-cnx :
      (self : Source pq) (c d : pq.Conn) (r : pq.Answer) (s : Status)
      → self.pgcnx.cnx ≡ some d
      → (by_status py g pq self c r s).0.pgcnx.cnx ≡ some d
  unfolding by_status
  by_status-cnx self c d r tuples_ok e = e
  by_status-cnx self c d r command_ok e = command_cnx self d (pq.cmd_tuples r) e
  by_status-cnx self c d r copy_out e = command_cnx self d (pq.cmd_tuples r) e
  by_status-cnx self c d r copy_in e = command_cnx self d (pq.cmd_tuples r) e
  by_status-cnx self c d r empty_query e = e
  by_status-cnx self c d r bad_response e = e
  by_status-cnx self c d r fatal_error e = e
  by_status-cnx self c d r nonfatal_error e = e
  by_status-cnx self c d r other_status e = e

  -- a connection after a query, and its answer
  abbrev Answered : pq.Conn × Option pq.Answer → Source pq × Reply (Option ℤ) → Type 0
  Answered p out = (out.0.pgcnx.cnx ≡ some p.0) × Follows p.1 out

  take_result-Answered :
      (encoding : ℕ) (self : Source pq) (p : pq.Conn × Option pq.Answer)
      → IsOpen self
      → Answered p (take_result py g pq (reset py g pq encoding self) p)
  take_result-Answered encoding self (c, none) h = (
    refl,
    (
      _,
      (
        refl,
        refl,
        fetch-no_result (take_result py g pq (reset py g pq encoding self) (c, none)).0
            (h.0, h.1, refl) refl,
      ),
    ),
  )
  take_result-Answered encoding self (c, some r) h =
      let now : Source pq = record (reset py g pq encoding self) {
        result = some r;
        pgcnx = record self.pgcnx { cnx = some c; date_format = g.date_format };
      } in
      (
        by_status-cnx now c c r (pq.result_status r) refl,
        by_status-Follows now c r (pq.result_status r) (h.0, h.1, refl) refl refl,
      )

  query_text-refused :
      (encoding : ℕ) (o : py.Obj)
      → get_encoded_string py g o encoding ≡ none
      → query_text py g pq encoding (unicode o) ≡ inl not_encodable
  unfolding query_text
  query_text-refused encoding o e = rw (e, query_text) refl

  query_text-encoded :
      (encoding : ℕ) (o : py.Obj) (s : Bytes)
      → get_encoded_string py g o encoding ≡ some s
      → query_text py g pq encoding (unicode o) ≡ inr s
  unfolding query_text
  query_text-encoded encoding o s e = rw (e, query_text) refl

  execute_on-Decided :
      (self : Source pq) (sql : Argument py.Obj) (c : pq.Conn)
      → IsOpen self
      → Decided self c
          (sent_text (pq.client_encoding c) sql)
          (run_query py g pq self c (query_text py g pq (pq.client_encoding c) sql))
  unfolding query_text
  execute_on-Decided self (byte_string s) c h =
      take_result-Answered (pq.client_encoding c) self (pq.exec c s) h
  execute_on-Decided self (unicode o) c h =
      elim (Option-cases (get_encoded_string py g o (pq.client_encoding c))) [
        | inl e ↦ rw (e, query_text-refused (pq.client_encoding c) o e) (_, refl)
        | inr (s, e) ↦
            rw (e, query_text-encoded (pq.client_encoding c) o s e)
              (take_result-Answered (pq.client_encoding c) self (pq.exec c s) h)
      ]
  execute_on-Decided self none_value c h = (_, refl)
  execute_on-Decided self (exception o) c h = (_, refl)
  execute_on-Decided self other_value c h = (_, refl)

  -- `execute` on an open source with an open connection: exactly an argument that is no string, or
  -- a text that cannot be encoded, is refused, and then nothing changes. All other queries are sent,
  -- and the answer of the server decides. After a result with rows it returns None, and the source
  -- holds that result with all its rows to be fetched from the first on; after a command it
  -- returns the number of rows, and `fetch` raises "Last query did not return tuples"; after no
  -- result, or one of any other status, it raises an exception, no result is left, and `fetch`
  -- raises "No result".
  pub source_execute-Decided :
      (self : Source pq) (sql : Argument py.Obj) (c : pq.Conn)
      → check_source_obj self check_cnx ≡ none
      → self.pgcnx.cnx ≡ some c
      → Decided self c (sent_text (pq.client_encoding c) sql) (source_execute py g pq self sql)
  unfolding source_execute
  source_execute-Decided self sql c h e =
      let o = IsOpen-check self h in
      let out : source_execute py g pq self sql
          ≡ run_query py g pq self c (query_text py g pq (pq.client_encoding c) sql) =
        checked-none self 4 _ h ∙ ap (execute_on py g pq self sql) e in
      subst (λ x. Decided self c (sent_text (pq.client_encoding c) sql) x) (sym out)
        (execute_on-Decided self sql c o)
