-- ===== src/Large/Guards.antt =====
-- What the methods of a large object refuse.
use py_gre_sql.Base.{
  ℕ, suc, ℤ, pos, is_negative, true, false, Bytes, Option, none, some, ◌==◌, inl, ◌≡◌, refl,
}
use py_gre_sql.Libpq.{Libpq}
use py_gre_sql.Source.{check_cnx_obj}
use py_gre_sql.Large.{
  LargeServer, Large, LargeError, Tried, null_oid, not_opened, already_opened, check_open,
  check_close, check_lo_obj, guarded, large_open, large_close, large_read, large_write, large_seek,
  large_size, large_tell, large_export, large_unlink,
}

guarded-some :
    {pq : Libpq} {A : Type 0} (self : Large pq) (level : ℕ) (body : pq.Conn → Large pq × Tried A)
    (e : LargeError)
    → check_lo_obj self level ≡ some e
    → guarded self level body ≡ (self, inl e)
guarded-some self level body e h = rw (h, guarded) refl

-- the connection is there, and the object has an oid
abbrev pub IsValid : {pq : Libpq} → Large pq → Type 0
IsValid self = (check_cnx_obj self.pgcnx ≡ none) × ((self.lo_oid == 0) ≡ false)

check-closed :
    {pq : Libpq} (self : Large pq)
    → IsValid self
    → is_negative self.lo_fd ≡ true
    → check_lo_obj self check_open ≡ some not_opened
unfolding check_lo_obj
check-closed self h e = rw (h.0, check_lo_obj) (rw h.1 (rw e refl))

check-opened :
    {pq : Libpq} (self : Large pq)
    → IsValid self
    → is_negative self.lo_fd ≡ false
    → check_lo_obj self check_close ≡ some already_opened
unfolding check_lo_obj
check-opened self h e = rw (h.0, check_lo_obj) (rw h.1 (rw e refl))

check-unlinked :
    {pq : Libpq} (self : Large pq) (level : ℕ)
    → check_cnx_obj self.pgcnx ≡ none
    → (self.lo_oid == 0) ≡ true
    → check_lo_obj self level ≡ some null_oid
unfolding check_lo_obj
check-unlinked self level h e = rw (h, check_lo_obj) (rw e refl)

module _ {pq : Libpq} (lo : LargeServer pq) (self : Large pq) where
  -- On a valid object that is not opened, `close`, `read`, `write`, `seek`, `size` and `tell` raise
  -- the error "Object is not opened", and leave the object and the connection as they are.
  pub closed-refused :
      (n : ℕ) (b : Bytes) (p : ℤ × ℤ)
      → IsValid self
      → is_negative self.lo_fd ≡ true
      → (large_close lo self ≡ (self, inl not_opened))
        × (large_read lo self (some (pos (suc n))) ≡ (self, inl not_opened))
        × (large_write lo self (some b) ≡ (self, inl not_opened))
        × (large_seek lo self (some p) ≡ (self, inl not_opened))
        × (large_size lo self ≡ (self, inl not_opened))
        × (large_tell lo self ≡ (self, inl not_opened))
  unfolding large_close large_read large_write large_seek large_size large_tell
  closed-refused n b p h e =
      let c = check-closed self h e in
      (
        guarded-some self 1 _ not_opened c,
        guarded-some self 1 _ not_opened c,
        guarded-some self 1 _ not_opened c,
        guarded-some self 1 _ not_opened c,
        guarded-some self 1 _ not_opened c,
        guarded-some self 1 _ not_opened c,
      )

  -- On an object that has been unlinked, every method with a proper argument raises the error
  -- "Object is not valid (null oid)", and leaves the object and the connection as they are.
  pub unlinked-refused :
      (n : ℕ) (b : Bytes) (p : ℤ × ℤ) (mode : ℤ) (name : Option Bytes)
      → check_cnx_obj self.pgcnx ≡ none
      → (self.lo_oid == 0) ≡ true
      → (large_open lo self (some mode) ≡ (self, inl null_oid))
        × (large_close lo self ≡ (self, inl null_oid))
        × (large_read lo self (some (pos (suc n))) ≡ (self, inl null_oid))
        × (large_write lo self (some b) ≡ (self, inl null_oid))
        × (large_seek lo self (some p) ≡ (self, inl null_oid))
        × (large_size lo self ≡ (self, inl null_oid))
        × (large_tell lo self ≡ (self, inl null_oid))
        × (large_export lo self name ≡ (self, inl null_oid))
        × (large_unlink lo self ≡ (self, inl null_oid))
  unfolding large_open large_close large_read large_write large_seek large_size large_tell
      large_export large_unlink
  unlinked-refused n b p mode name h e = (
    guarded-some self 2 _ null_oid (check-unlinked self 2 h e),
    guarded-some self 1 _ null_oid (check-unlinked self 1 h e),
    guarded-some self 1 _ null_oid (check-unlinked self 1 h e),
    guarded-some self 1 _ null_oid (check-unlinked self 1 h e),
    guarded-some self 1 _ null_oid (check-unlinked self 1 h e),
    guarded-some self 1 _ null_oid (check-unlinked self 1 h e),
    guarded-some self 1 _ null_oid (check-unlinked self 1 h e),
    guarded-some self 2 _ null_oid (check-unlinked self 2 h e),
    guarded-some self 2 _ null_oid (check-unlinked self 2 h e),
  )
