-- ===== src/Large/Tests.antt =====
-- The theorems on large objects at concrete inputs.
use py_gre_sql.Base.{
  ℕ, zero, suc, ℤ, pos, negsuc, is_negative, [], none, some, true, ◌==◌, inl, inr, ◌≡◌, refl, codes,
}
use py_gre_sql.Libpq.Demo.{server}
use py_gre_sql.Source.{Connection, check_cnx_obj}
use py_gre_sql.Large.{
  LargeServer, Large, null_oid, not_opened, check_lo_obj, large_new, large_open, large_close,
  large_read, large_write, large_seek, large_size, large_tell, large_export, large_unlink,
}
use py_gre_sql.Large.Guards.{closed-refused, unlinked-refused}
use py_gre_sql.Large.Size.{Seekable, large_size-large_tell}
use py_gre_sql.Large.States.{
  open_call, close_call, unlink_call, after_call, Reachable, created, called, Reachable-Consistent,
}

-- the connection is the cursor of an object of 100 bytes
abbrev seek_to : ℤ → ℤ → ℕ × ℤ
seek_to (pos p) (pos zero) = (p, pos p)
seek_to _ _ = (100, pos 100)

abbrev files : LargeServer server
files = record {
  lo_open = λ c oid mode. (c, pos 3);
  lo_close = λ c fd. (c, pos 0);
  lo_read = λ c fd n. (c, some []);
  lo_write = λ c fd b. (c, pos 0);
  lo_lseek = λ c fd offset whence. seek_to offset whence;
  lo_tell = λ c fd. (c, pos c);
  lo_export = λ c oid name. (c, pos 1);
  lo_unlink = λ c oid. (c, pos 1);
  lo_creat = λ c mode. (c, 9);
  lo_import = λ c name. (c, 9);
}

abbrev files-Seekable : Seekable files (pos 3)
files-Seekable = record {
  cursor = λ c. c;
  extent = λ c. 100;
  tell_cursor = λ c. refl;
  tell_stays = λ c. refl;
  tell_extent = λ c. refl;
  end_extent = λ c. refl;
  set_position = λ c p. refl;
  set_cursor = λ c p. refl;
}

abbrev connection : Connection server
connection = record { valid = true; cnx = some 7; date_format = none }

abbrev object : ℕ → ℤ → Large server
object oid fd = record { pgcnx = connection; lo_oid = oid; lo_fd = fd }

closed-refused_example :
    (large_close files (object 9 (negsuc 0)) ≡ (object 9 (negsuc 0), inl not_opened))
    × (large_read files (object 9 (negsuc 0)) (some (pos (suc 4)))
        ≡ (object 9 (negsuc 0), inl not_opened))
    × (large_write files (object 9 (negsuc 0)) (some (codes "a"))
        ≡ (object 9 (negsuc 0), inl not_opened))
    × (large_seek files (object 9 (negsuc 0)) (some (pos 1, pos 0))
        ≡ (object 9 (negsuc 0), inl not_opened))
    × (large_size files (object 9 (negsuc 0)) ≡ (object 9 (negsuc 0), inl not_opened))
    × (large_tell files (object 9 (negsuc 0)) ≡ (object 9 (negsuc 0), inl not_opened))
unfolding check_cnx_obj
closed-refused_example =
    closed-refused files (object 9 (negsuc 0)) 4 (codes "a") (pos 1, pos 0) (refl, refl) refl

unlinked-refused_example :
    (large_open files (object 0 (negsuc 0)) (some (pos 1)) ≡ (object 0 (negsuc 0), inl null_oid))
    × (large_close files (object 0 (negsuc 0)) ≡ (object 0 (negsuc 0), inl null_oid))
    × (large_read files (object 0 (negsuc 0)) (some (pos (suc 4)))
        ≡ (object 0 (negsuc 0), inl null_oid))
    × (large_write files (object 0 (negsuc 0)) (some (codes "a"))
        ≡ (object 0 (negsuc 0), inl null_oid))
    × (large_seek files (object 0 (negsuc 0)) (some (pos 1, pos 0))
        ≡ (object 0 (negsuc 0), inl null_oid))
    × (large_size files (object 0 (negsuc 0)) ≡ (object 0 (negsuc 0), inl null_oid))
    × (large_tell files (object 0 (negsuc 0)) ≡ (object 0 (negsuc 0), inl null_oid))
    × (large_export files (object 0 (negsuc 0)) none ≡ (object 0 (negsuc 0), inl null_oid))
    × (large_unlink files (object 0 (negsuc 0)) ≡ (object 0 (negsuc 0), inl null_oid))
unfolding check_cnx_obj
unlinked-refused_example =
    unlinked-refused files (object 0 (negsuc 0)) 4 (codes "a") (pos 1, pos 0) (pos 1) none refl refl

large_size-large_tell_example :
    ((large_size files (object 9 (pos 3))).1 ≡ inr (pos 100))
    × ((large_tell files (object 9 (pos 3))).1 ≡ inr (pos 7))
    × ((large_tell files (large_size files (object 9 (pos 3))).0).1 ≡ inr (pos 7))
unfolding check_lo_obj check_cnx_obj
large_size-large_tell_example =
    large_size-large_tell files (object 9 (pos 3)) 7 files-Seekable refl refl

-- opened, closed and unlinked
abbrev gone : Large server
gone = after_call files unlink_call (
    after_call files close_call
      (after_call files (open_call (some (pos 1))) (large_new connection 9)))

gone-Reachable : Reachable files gone
gone-Reachable =
    called unlink_call
      (called close_call (called (open_call (some (pos 1))) (created connection 9 refl)))

gone_null : (gone.lo_oid == 0) ≡ true
unfolding after_call large_open large_close large_unlink large_new check_lo_obj check_cnx_obj
gone_null = refl

Reachable-Consistent_example : is_negative gone.lo_fd ≡ true
Reachable-Consistent_example = Reachable-Consistent files gone gone-Reachable gone_null
