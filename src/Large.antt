-- ===== src/Large.antt =====
-- The large object of pglarge.c: its oid and descriptor, the checks, and the methods over the lo_
-- functions of libpq, which are a parameter.
pub mod Guards
pub mod Size
pub mod States
pub mod Create
pub mod Attributes
mod Tests
use Prim.Native.Nat.{bit_and}
use py_gre_sql.Base.{
  ℕ, zero, suc, ℤ, pos, negsuc, is_negative, is_minus_one, Bool, true, false, not, ◌&&◌, [], ◌∷◌,
  Bytes, Option, none, some, ◌==◌, if◌then◌else◌, ◌⊎◌, inl, inr, length,
}
use py_gre_sql.Elements.{has_bits}
use py_gre_sql.Libpq.{Libpq}
use py_gre_sql.Source.{Connection, check_cnx_obj}

-- The lo_ functions: the connection that they leave behind, and what they return. `lo_read` gives
-- the bytes that it has read, `none` for -1.
pub record LargeServer (pq : Libpq) : Type 0 where
  pub lo_open : pq.Conn → ℕ → ℤ → pq.Conn × ℤ
  pub lo_close : pq.Conn → ℤ → pq.Conn × ℤ
  pub lo_read : pq.Conn → ℤ → ℕ → pq.Conn × Option Bytes
  pub lo_write : pq.Conn → ℤ → Bytes → pq.Conn × ℤ
  pub lo_lseek : pq.Conn → ℤ → ℤ → ℤ → pq.Conn × ℤ
  pub lo_tell : pq.Conn → ℤ → pq.Conn × ℤ
  pub lo_export : pq.Conn → ℕ → Bytes → pq.Conn × ℤ
  pub lo_unlink : pq.Conn → ℕ → pq.Conn × ℤ
  -- an oid, 0 for an error
  pub lo_creat : pq.Conn → ℤ → pq.Conn × ℕ
  pub lo_import : pq.Conn → Bytes → pq.Conn × ℕ

abbrev pub check_open : ℕ
check_open = 1

abbrev pub check_close : ℕ
check_close = 2

abbrev pub seek_set : ℤ
seek_set = pos 0

abbrev pub seek_end : ℤ
seek_end = pos 2

-- `largeObject`, with the connection object that it shares
pub record Large (pq : Libpq) : Type 0 where
  pub pgcnx : Connection pq
  pub lo_oid : ℕ
  pub lo_fd : ℤ

-- the exceptions, one for each message
pub data LargeError : Type 0 where
  cnx_closed null_oid not_opened already_opened : LargeError
  bad_argument positive_expected : LargeError
  open_failed close_failed read_failed truncated move_failed : LargeError
  position_failed end_failed back_failed tell_failed export_failed unlink_failed create_failed :
      LargeError

abbrev pub Tried : Type 0 → Type 0
Tried A = LargeError ⊎ A

abbrev pub is_one : ℤ → Bool
is_one (pos n) = n == 1
is_one (negsuc n) = false

abbrev pub is_zero : ℤ → Bool
is_zero (pos n) = n == 0
is_zero (negsuc n) = false

abbrev pub is_length : ℕ → ℤ → Bool
is_length n (pos m) = m == n
is_length n (negsuc m) = false

module _ {pq : Libpq} where
  -- a closed object
  pub large_new : Connection pq → ℕ → Large pq
  large_new pgcnx oid = record { pgcnx = pgcnx; lo_oid = oid; lo_fd = negsuc 0 }

  abbrev pub level_error : Large pq → ℕ → Option LargeError
  level_error self level =
      if has_bits level check_open && is_negative self.lo_fd
      then some not_opened
      else if has_bits level check_close && not (is_negative self.lo_fd)
      then some already_opened
      else none

  -- `_check_lo_obj`
  unfoldable pub check_lo_obj : Large pq → ℕ → Option LargeError
  check_lo_obj self level = elim (check_cnx_obj self.pgcnx) [
    | some f ↦ some cnx_closed
    | none ↦ if self.lo_oid == 0 then some null_oid else level_error self level
  ]

  abbrev pub with_conn : Large pq → pq.Conn → Large pq
  with_conn self c = record self { pgcnx = record self.pgcnx { cnx = some c } }

  -- the body of a method, where the check has found a connection
  abbrev pub on_conn :
      {A : Type 0} → Large pq → (pq.Conn → Large pq × Tried A) → Option pq.Conn → Large pq × Tried A
  on_conn self body none = (self, inl cnx_closed)
  on_conn self body (some c) = body c

  -- a failed check calls nothing and changes nothing
  abbrev pub guarded :
      {A : Type 0} → Large pq → ℕ → (pq.Conn → Large pq × Tried A) → Large pq × Tried A
  guarded self level body = elim (check_lo_obj self level) [
    | some e ↦ (self, inl e)
    | none ↦ on_conn self body self.pgcnx.cnx
  ]

module _ {pq : Libpq} (lo : LargeServer pq) where
  abbrev pub opened_by : Large pq → (pq.Conn × ℤ) → Large pq × Tried Unit
  opened_by self (c, fd) =
      if is_minus_one fd
      then (with_conn self c, inl open_failed)
      else (record (with_conn self c) { lo_fd = fd }, inr tt)

  -- `none` is an argument of another type, here and below
  unfoldable pub large_open : Large pq → Option ℤ → Large pq × Tried Unit
  large_open self none = (self, inl bad_argument)
  large_open self (some mode) =
      guarded self check_close λ c. opened_by self (lo.lo_open c self.lo_oid mode)

  abbrev pub closed_by : Large pq → (pq.Conn × ℤ) → Large pq × Tried Unit
  closed_by self (c, res) =
      if is_zero res
      then (record (with_conn self c) { lo_fd = negsuc 0 }, inr tt)
      else (with_conn self c, inl close_failed)

  unfoldable pub large_close : Large pq → Large pq × Tried Unit
  large_close self = guarded self check_open λ c. closed_by self (lo.lo_close c self.lo_fd)

  abbrev pub has_read : Large pq → (pq.Conn × Option Bytes) → Large pq × Tried Bytes
  has_read self (c, none) = (with_conn self c, inl read_failed)
  has_read self (c, some b) = (with_conn self c, inr b)

  unfoldable pub large_read : Large pq → Option ℤ → Large pq × Tried Bytes
  large_read self (some (pos (suc n))) =
      guarded self check_open λ c. has_read self (lo.lo_read c self.lo_fd (suc n))
  large_read self (some _) = (self, inl positive_expected)
  large_read self none = (self, inl bad_argument)

  abbrev pub written : Large pq → ℕ → (pq.Conn × ℤ) → Large pq × Tried Unit
  written self n (c, size) =
      if is_length n size then (with_conn self c, inr tt) else (with_conn self c, inl truncated)

  unfoldable pub large_write : Large pq → Option Bytes → Large pq × Tried Unit
  large_write self none = (self, inl bad_argument)
  large_write self (some b) =
      guarded self check_open λ c. written self (length b) (lo.lo_write c self.lo_fd b)

  -- a position, or the error `e` for -1
  abbrev pub position : Large pq → LargeError → (pq.Conn × ℤ) → Large pq × Tried ℤ
  position self e (c, p) =
      if is_minus_one p then (with_conn self c, inl e) else (with_conn self c, inr p)

  -- the offset and the whence
  unfoldable pub large_seek : Large pq → Option (ℤ × ℤ) → Large pq × Tried ℤ
  large_seek self none = (self, inl bad_argument)
  large_seek self (some (offset, whence)) =
      guarded self check_open
        λ c. position self move_failed (lo.lo_lseek c self.lo_fd offset whence)

  -- the three calls of `size`: where it is, the end, and back
  abbrev pub moved_back : Large pq → ℤ → (pq.Conn × ℤ) → Large pq × Tried ℤ
  moved_back self end (c, p) =
      if is_minus_one p then (with_conn self c, inl back_failed) else (with_conn self c, inr end)

  abbrev pub at_end : Large pq → ℤ → (pq.Conn × ℤ) → Large pq × Tried ℤ
  at_end self start (c, end) =
      if is_minus_one end
      then (with_conn self c, inl end_failed)
      else moved_back self end (lo.lo_lseek c self.lo_fd start seek_set)

  abbrev pub at_start : Large pq → (pq.Conn × ℤ) → Large pq × Tried ℤ
  at_start self (c, start) =
      if is_minus_one start
      then (with_conn self c, inl position_failed)
      else at_end self start (lo.lo_lseek c self.lo_fd (pos 0) seek_end)

  unfoldable pub large_size : Large pq → Large pq × Tried ℤ
  large_size self = guarded self check_open λ c. at_start self (lo.lo_tell c self.lo_fd)

  unfoldable pub large_tell : Large pq → Large pq × Tried ℤ
  large_tell self = guarded self check_open λ c. position self tell_failed (lo.lo_tell c self.lo_fd)

  abbrev pub exported : Large pq → (pq.Conn × ℤ) → Large pq × Tried Unit
  exported self (c, res) =
      if is_one res then (with_conn self c, inr tt) else (with_conn self c, inl export_failed)

  abbrev pub export_to : Large pq → Option Bytes → pq.Conn → Large pq × Tried Unit
  export_to self none c = (self, inl bad_argument)
  export_to self (some name) c = exported self (lo.lo_export c self.lo_oid name)

  -- the check comes before the argument here
  unfoldable pub large_export : Large pq → Option Bytes → Large pq × Tried Unit
  large_export self name = guarded self check_close (export_to self name)

  abbrev pub unlinked : Large pq → (pq.Conn × ℤ) → Large pq × Tried Unit
  unlinked self (c, res) =
      if is_one res
      then (record (with_conn self c) { lo_oid = 0 }, inr tt)
      else (with_conn self c, inl unlink_failed)

  unfoldable pub large_unlink : Large pq → Large pq × Tried Unit
  large_unlink self = guarded self check_close λ c. unlinked self (lo.lo_unlink c self.lo_oid)
