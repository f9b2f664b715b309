-- ===== src/Large/Size.antt =====
-- `size` of a large object, on a server whose descriptors have a cursor and an extent.
use py_gre_sql.Base.{ℕ, ℤ, pos, none, some, inr, ◌≡◌, refl, ap, arith, ◌∙◌}
use py_gre_sql.Libpq.{Libpq}
use py_gre_sql.Source.{check_cnx_obj}
use py_gre_sql.Large.{
  LargeServer, Large, Tried, check_open, check_lo_obj, guarded, on_conn, with_conn, seek_set,
  seek_end, large_size, large_tell, at_start, at_end, moved_back, position,
}

-- What the documentation says of `lo_tell` and `lo_lseek`, for one descriptor: it has a cursor and
-- an extent, `lo_tell` returns the cursor and moves nothing, and `lo_lseek` moves the cursor to the
-- end or to a position, which it returns, and keeps the extent.
pub record Seekable {pq : Libpq} (lo : LargeServer pq) (fd : ℤ) : Type 0 where
  pub cursor : pq.Conn → ℕ
  pub extent : pq.Conn → ℕ
  pub tell_cursor : (c : pq.Conn) → (lo.lo_tell c fd).1 ≡ pos (cursor c)
  pub tell_stays : (c : pq.Conn) → cursor (lo.lo_tell c fd).0 ≡ cursor c
  pub tell_extent : (c : pq.Conn) → extent (lo.lo_tell c fd).0 ≡ extent c
  pub end_extent : (c : pq.Conn) → (lo.lo_lseek c fd (pos 0) seek_end).1 ≡ pos (extent c)
  pub set_position : (c : pq.Conn) (p : ℕ) → (lo.lo_lseek c fd (pos p) seek_set).1 ≡ pos p
  pub set_cursor : (c : pq.Conn) (p : ℕ) → cursor (lo.lo_lseek c fd (pos p) seek_set).0 ≡ p

module _ {pq : Libpq} (self : Large pq) (c : pq.Conn) where
  guarded-cnx :
      {A : Type 0} (level : ℕ) (body : pq.Conn → Large pq × Tried A)
      → check_lo_obj self level ≡ none
      → self.pgcnx.cnx ≡ some c
      → guarded self level body ≡ body c
  guarded-cnx level body h e = rw (h, guarded) refl ∙ ap (λ o. on_conn self body o) e

  check-with_conn :
      (c₁ : pq.Conn)
      → check_lo_obj self check_open ≡ none
      → check_lo_obj (with_conn self c₁) check_open ≡ none
  unfolding check_lo_obj check_cnx_obj
  check-with_conn c₁ h = ground arith

module _ {pq : Libpq} (lo : LargeServer pq) (self : Large pq) (c : pq.Conn) where
  -- the connections behind the three calls of `size`
  abbrev told : pq.Conn
  told = (lo.lo_tell c self.lo_fd).0

  abbrev ended : pq.Conn
  ended = (lo.lo_lseek told self.lo_fd (pos 0) seek_end).0

  abbrev back_at : ℕ → pq.Conn
  back_at p = (lo.lo_lseek ended self.lo_fd (pos p) seek_set).0

  size_run :
      (s : Seekable lo self.lo_fd)
      → check_lo_obj self check_open ≡ none
      → self.pgcnx.cnx ≡ some c
      → large_size lo self ≡ (with_conn self (back_at (s.cursor c)), inr (pos (s.extent c)))
  unfolding large_size
  size_run s h e =
      guarded-cnx self c 1 _ h e
      ∙ rw (s.tell_cursor c, at_start)
          (rw (s.end_extent told, at_end)
            (rw (s.set_position ended (s.cursor c), moved_back) (rw (s.tell_extent c) refl)))

  tell_run :
      (s : Seekable lo self.lo_fd)
      → check_lo_obj self check_open ≡ none
      → self.pgcnx.cnx ≡ some c
      → (large_tell lo self).1 ≡ inr (pos (s.cursor c))
  unfolding large_tell
  tell_run s h e = ap (λ r. r.1) (guarded-cnx self c 1 _ h e) ∙ rw (s.tell_cursor c, position) refl

module _ {pq : Libpq} (lo : LargeServer pq) (self : Large pq) (c : pq.Conn) where
  -- On an opened object, on such a server: `size` returns the extent of the object, and leaves the
  -- cursor where it was, so that `tell` returns the same position as before.
  pub large_size-large_tell :
      (s : Seekable lo self.lo_fd)
      → check_lo_obj self check_open ≡ none
      → self.pgcnx.cnx ≡ some c
      → ((large_size lo self).1 ≡ inr (pos (s.extent c)))
        × ((large_tell lo self).1 ≡ inr (pos (s.cursor c)))
        × ((large_tell lo (large_size lo self).0).1 ≡ inr (pos (s.cursor c)))
  large_size-large_tell s h e = (
    ap (λ r. r.1) (size_run lo self c s h e),
    tell_run lo self c s h e,
    ap (λ (r : Large pq × Tried ℤ). (large_tell lo r.0).1) (size_run lo self c s h e)
        ∙ tell_run lo (with_conn self (back_at lo self c (s.cursor c)))
            (back_at lo self c (s.cursor c)) s
            (check-with_conn self c (back_at lo self c (s.cursor c)) h) refl
        ∙ ap (λ n. inr (pos n)) (s.set_cursor (ended lo self c) (s.cursor c)),
  )
