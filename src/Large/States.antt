-- ===== src/Large/States.antt =====
-- The states of a large object: closed, opened and unlinked.
use py_gre_sql.Base.{
  ℕ, zero, suc, ℤ, pos, negsuc, is_negative, is_minus_one, Bool, true, false, not, ◌&&◌, Bytes,
  Option, none, some, ◌==◌, if◌then◌else◌, inl, inr, ◌≡◌, refl, arith, Option-cases, length,
}
use py_gre_sql.Libpq.{Libpq}
use py_gre_sql.Source.{Connection}
use py_gre_sql.Large.{
  LargeServer, Large, LargeError, Tried, check_lo_obj, guarded, on_conn, with_conn, large_new,
  large_open, large_close, large_read, large_write, large_seek, large_size, large_tell,
  large_export, large_unlink, is_one, is_zero, is_length, opened_by, closed_by, has_read, position,
  at_start, export_to, unlinked, check_open, check_close, end_failed, back_failed, truncated,
  move_failed, tell_failed,
}

-- one call of a method, with its argument
pub data Call : Type 0 where
  open_call : Option ℤ → Call
  close_call : Call
  read_call : Option ℤ → Call
  write_call : Option Bytes → Call
  seek_call : Option (ℤ × ℤ) → Call
  size_call : Call
  tell_call : Call
  export_call : Option Bytes → Call
  unlink_call : Call

module _ {pq : Libpq} (lo : LargeServer pq) where
  unfoldable pub after_call : Call → Large pq → Large pq
  after_call (open_call mode) self = (large_open lo self mode).0
  after_call close_call self = (large_close lo self).0
  after_call (read_call n) self = (large_read lo self n).0
  after_call (write_call b) self = (large_write lo self b).0
  after_call (seek_call p) self = (large_seek lo self p).0
  after_call size_call self = (large_size lo self).0
  after_call tell_call self = (large_tell lo self).0
  after_call (export_call name) self = (large_export lo self name).0
  after_call unlink_call self = (large_unlink lo self).0

  -- the objects that come out of `large_new` with an oid, calls, and changes of the connection
  pub data Reachable : Large pq → Type 0 where
    created : (c : Connection pq) (oid : ℕ) → (oid == 0) ≡ false → Reachable (large_new c oid)
    called : {self : Large pq} (m : Call) → Reachable self → Reachable (after_call m self)
    connected :
        {self : Large pq} (c : Connection pq)
        → Reachable self
        → Reachable (record self { pgcnx = c })

  -- An object without an oid has no descriptor.
  abbrev pub Consistent : Large pq → Type 0
  Consistent self = ((self.lo_oid == 0) && not (is_negative self.lo_fd)) ≡ false

  on_conn-All :
      {A : Type 0} (self : Large pq) (body : pq.Conn → Large pq × Tried A) (o : Option pq.Conn)
      → Consistent self
      → ((c : pq.Conn) → Consistent (body c).0)
      → Consistent (on_conn self body o).0
  on_conn-All self body none h k = h
  on_conn-All self body (some c) h k = k c

  -- what holds of the object and of what the body leaves holds behind the guard
  guarded-All :
      {A : Type 0} (self : Large pq) (level : ℕ) (body : pq.Conn → Large pq × Tried A)
      → Consistent self
      → (check_lo_obj self level ≡ none → (c : pq.Conn) → Consistent (body c).0)
      → Consistent (guarded self level body).0
  guarded-All self level body h k = elim (Option-cases (check_lo_obj self level)) [
    | inr (e, q) ↦ rw (q, guarded) h
    | inl q ↦ rw (q, guarded) (on_conn-All self body self.pgcnx.cnx h (k q))
  ]

  -- a test whose branches both keep it
  if-All :
      {A : Type 0} (b : Bool) (x y : Large pq × Tried A)
      → Consistent x.0
      → Consistent y.0
      → Consistent (if b then x else y).0
  if-All true x y h k = h
  if-All false x y h k = k

  check-oid :
      (self : Large pq) (level : ℕ) → check_lo_obj self level ≡ none → (self.lo_oid == 0) ≡ false
  unfolding check_lo_obj
  check-oid self level h = ground arith

  check-fd :
      (self : Large pq) → check_lo_obj self check_close ≡ none → is_negative self.lo_fd ≡ true
  unfolding check_lo_obj
  check-fd self h = ground arith

  and_false : (b : Bool) → b && false ≡ false
  and_false true = refl
  and_false false = refl

  opened-All :
      (self : Large pq) (p : pq.Conn × ℤ)
      → Consistent self
      → (self.lo_oid == 0) ≡ false
      → Consistent (opened_by lo self p).0
  opened-All self (c, fd) h e = if-All (is_minus_one fd) _ _ h (rw e refl)

  closed-All :
      (self : Large pq) (p : pq.Conn × ℤ) → Consistent self → Consistent (closed_by lo self p).0
  closed-All self (c, res) h = if-All (is_zero res) _ _ (and_false (self.lo_oid == 0)) h

  has_read-All :
      (self : Large pq) (p : pq.Conn × Option Bytes)
      → Consistent self
      → Consistent (has_read lo self p).0
  has_read-All self (c, none) h = h
  has_read-All self (c, some b) h = h

  position-All :
      (self : Large pq) (e : LargeError) (p : pq.Conn × ℤ)
      → Consistent self
      → Consistent (position lo self e p).0
  position-All self e (c, p) h = if-All (is_minus_one p) _ _ h h

  size-All :
      (self : Large pq) (p : pq.Conn × ℤ) → Consistent self → Consistent (at_start lo self p).0
  size-All self (c, start) h =
      let p = lo.lo_lseek c self.lo_fd (pos 0) (pos 2) in
      let q = lo.lo_lseek p.0 self.lo_fd start (pos 0) in
      if-All (is_minus_one start) _ _ h (
        if-All (is_minus_one p.1) (with_conn self p.0, inl end_failed) _ h
          (if-All (is_minus_one q.1) (with_conn self q.0, inl back_failed)
            (with_conn self q.0, inr p.1) h h))

  unlinked-All :
      (self : Large pq) (p : pq.Conn × ℤ)
      → Consistent self
      → is_negative self.lo_fd ≡ true
      → Consistent (unlinked lo self p).0
  unlinked-All self (c, res) h e = if-All (is_one res) _ _ (rw e refl) h

  export-All :
      (self : Large pq) (name : Option Bytes) (c : pq.Conn)
      → Consistent self
      → Consistent (export_to lo self name c).0
  export-All self none c h = h
  export-All self (some name) c h =
      let p = lo.lo_export c self.lo_oid name in
      if-All (is_one p.1) (with_conn self p.0, inr tt) _ h h

  call-Consistent : (m : Call) (self : Large pq) → Consistent self → Consistent (after_call m self)
  unfolding after_call large_open large_close large_read large_write large_seek large_size
      large_tell large_export large_unlink
  call-Consistent (open_call none) self h = h
  call-Consistent (open_call (some mode)) self h =
      guarded-All self check_close _ h
        λ e c. opened-All self (lo.lo_open c self.lo_oid mode) h (check-oid self check_close e)
  call-Consistent close_call self h =
      guarded-All self check_open _ h λ e c. closed-All self (lo.lo_close c self.lo_fd) h
  call-Consistent (read_call none) self h = h
  call-Consistent (read_call (some (negsuc n))) self h = h
  call-Consistent (read_call (some (pos zero))) self h = h
  call-Consistent (read_call (some (pos (suc n)))) self h =
      guarded-All self check_open _ h λ e c. has_read-All self (lo.lo_read c self.lo_fd (suc n)) h
  call-Consistent (write_call none) self h = h
  call-Consistent (write_call (some b)) self h = guarded-All self check_open _ h λ e c.
      let p = lo.lo_write c self.lo_fd b in
      if-All (is_length (length b) p.1) (with_conn self p.0, inr tt)
        (with_conn self p.0, inl truncated) h h
  call-Consistent (seek_call none) self h = h
  call-Consistent (seek_call (some (o, w))) self h =
      guarded-All self check_open _ h
        λ e c. position-All self move_failed (lo.lo_lseek c self.lo_fd o w) h
  call-Consistent size_call self h =
      guarded-All self check_open _ h λ e c. size-All self (lo.lo_tell c self.lo_fd) h
  call-Consistent tell_call self h =
      guarded-All self check_open _ h
        λ e c. position-All self tell_failed (lo.lo_tell c self.lo_fd) h
  call-Consistent (export_call name) self h =
      guarded-All self check_close _ h λ e c. export-All self name c h
  call-Consistent unlink_call self h =
      guarded-All self check_close _ h
        λ e c. unlinked-All self (lo.lo_unlink c self.lo_oid) h (check-fd self e)

  -- Whatever methods are called on a large object, in whatever order, with whatever answers of the
  -- server and changes of the connection in between: an object whose oid is null, as after
  -- `unlink`, is never opened.
  pub Reachable-Consistent :
      (self : Large pq) → Reachable self → (self.lo_oid == 0) ≡ true → is_negative self.lo_fd ≡ true
  unfolding large_new
  Reachable-Consistent self h e = null_closed self (consistent self h) e
    where
      consistent : (self : Large pq) → Reachable self → Consistent self
      consistent _ (created c oid e) = rw e refl
      consistent _ (called {self} m h) = call-Consistent m self (consistent self h)
      consistent _ (connected {self} c h) = consistent self h

      null_closed :
          (self : Large pq)
          → Consistent self
          → (self.lo_oid == 0) ≡ true
          → is_negative self.lo_fd ≡ true
      null_closed self h e = ground arith
