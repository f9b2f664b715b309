-- ===== src/Source.antt =====
-- The source object of pgsource.c, over a result of libpq: its state with that of its connection
-- object, the checks, the attribute that can be set and `close`. The methods are in the modules below.
pub mod Execute
pub mod Fetch
pub mod Copy
pub mod Fields
pub mod Rows
pub mod Counts
pub mod All
pub mod Invariant
pub mod Closed
pub mod Ends
pub mod Executed
pub mod Text
pub mod Attributes
mod Tests
pub mod Checks
use Prim.Native.Nat.{bit_and, bit_or}
use py_gre_sql.Base.{
  ℕ, ℤ, pos, negsuc, Bool, true, false, not, ◌&&◌, [], ◌∷◌, Bytes, Option, none, some, ◌==◌,
  if◌then◌else◌,
}
use py_gre_sql.Types.{is_set}
use py_gre_sql.Errors.{Raised}
use py_gre_sql.Elements.{has_bits}
use py_gre_sql.Libpq.{Libpq}

pub data ResultType : Type 0 where
  result_empty result_dml result_ddl result_dql : ResultType

abbrev pub is_dql : ResultType → Bool
is_dql result_dql = true
is_dql _ = false

abbrev pub check_cnx : ℕ
check_cnx = 4

abbrev pub check_result : ℕ
check_result = 8

abbrev pub check_dql : ℕ
check_dql = 16

-- `connObject`, as far as a source uses it
pub record Connection (pq : Libpq) : Type 0 where
  pub valid : Bool
  pub cnx : Option pq.Conn
  pub date_format : Option Bytes

-- `sourceObject`. The connection object is shared: a method leaves its changes of it in `pgcnx`.
pub record Source (pq : Libpq) : Type 0 where
  pub valid : Bool
  pub pgcnx : Connection pq
  pub result : Option pq.Answer
  pub encoding : ℕ
  pub result_type : ResultType
  pub arraysize : ℤ
  pub current_row : ℤ
  pub max_row : ℕ
  pub num_fields : ℕ

-- The exceptions of the methods. `failed` is what `set_error` makes of the connection's message.
pub data Failure : Type 0 where
  object_closed no_result no_tuples connection_closed : Failure
  not_encodable argument_expected not_writable : Failure
  value_error : Bytes → Failure
  empty_query_sent unknown_status unknown_field : Failure
  failed : Raised → Failure
  copy_state_expected : Failure
  copy_failure : Bytes → Failure

-- How a method ends. `null_pointer` is a call of CPython with a null pointer for a text, which is
-- not defined; it also stands where the check has excluded that a pointer is null.
pub data Reply (A : Type 0) : Type 0 where
  returned : A → Reply A
  raised : Failure → Reply A
  null_pointer : Reply A

-- a Python value as the argument of `execute` and `putdata`; an exception comes as its text
pub data Argument (Obj : Type 0) : Type 0 where
  byte_string : Bytes → Argument Obj
  unicode : Obj → Argument Obj
  none_value : Argument Obj
  exception : Obj → Argument Obj
  other_value : Argument Obj

module _ {pq : Libpq} where
  -- `conn_source`, which sets four of the fields; the others are what the memory held
  pub conn_source : Connection pq → Source pq → Source pq
  conn_source c memory = record memory { pgcnx = c; result = none; valid = true; arraysize = pos 1 }

  -- `_check_cnx_obj`
  unfoldable pub check_cnx_obj : Connection pq → Option Failure
  check_cnx_obj c = if c.valid && is_set c.cnx then none else some connection_closed

  unfoldable pub check_source_obj : Source pq → ℕ → Option Failure
  check_source_obj self level =
      if not self.valid
      then some object_closed
      else if has_bits level check_result && not (is_set self.result)
      then some no_result
      else if has_bits level check_dql && not (is_dql self.result_type)
      then some no_tuples
      else if has_bits level check_cnx
      then check_cnx_obj self.pgcnx
      else none

  -- a method's body behind its check; a failed check changes nothing
  abbrev pub checked : {A : Type 0} → Source pq → ℕ → (Source pq × Reply A) → (Source pq × Reply A)
  checked self level body = elim (check_source_obj self level) [
    | some f ↦ (self, raised f)
    | none ↦ body
  ]

  -- for the name `arraysize` or another, with an int or a value of another type
  pub source_setattr : Source pq → Bool → Option ℤ → Source pq × Reply Unit
  source_setattr self false v = (self, raised not_writable)
  source_setattr self true none = (self, raised argument_expected)
  source_setattr self true (some n) = (record self { arraysize = n }, returned tt)

  abbrev drop_result : Source pq → Option pq.Answer → Source pq
  drop_result self none = self
  drop_result self (some r) = record self { result_type = result_empty; result = none }

  pub source_close : Source pq → Source pq × Reply Unit
  source_close self = (record (drop_result self self.result) { valid = false }, returned tt)
