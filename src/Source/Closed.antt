-- ===== src/Source/Closed.antt =====
-- A source behind `close`.
use py_gre_sql.Base.{ℤ, Bool, Option, ◌≡◌, refl}
use py_gre_sql.Settings.{Settings}
use py_gre_sql.Python.{Python}
use py_gre_sql.Libpq.{Libpq}
use py_gre_sql.Source.{Source, Argument, raised, object_closed, check_source_obj, source_close}
use py_gre_sql.Source.Execute.{source_execute}
use py_gre_sql.Source.Fetch.{Direction, source_fetch, source_move}
use py_gre_sql.Source.Copy.{source_putdata, source_getdata}
use py_gre_sql.Source.Fields.{
  Desc, source_oidstatus, source_listinfo, source_fieldinfo, source_field,
}

module _ (py : Python) (g : Settings py.Obj) (pq : Libpq) where
  -- Once a source has been closed, every other method is refused with the error "Object has been
  -- closed", and changes neither the source nor the connection, whatever its arguments are.
  pub source_close-refused :
      (self : Source pq) (sql b : Argument py.Obj) (args : Option (Option ℤ)) (d : Direction)
      (decode : Option Bool) (desc : Desc)
      → (source_execute py g pq (source_close self).0 sql
          ≡ ((source_close self).0, raised object_closed))
        × (source_fetch py g pq (source_close self).0 args
            ≡ ((source_close self).0, raised object_closed))
        × (source_move d (source_close self).0 ≡ ((source_close self).0, raised object_closed))
        × (source_putdata py g pq (source_close self).0 b
            ≡ ((source_close self).0, raised object_closed))
        × (source_getdata py g pq (source_close self).0 decode
            ≡ ((source_close self).0, raised object_closed))
        × (source_oidstatus pq (source_close self).0
            ≡ ((source_close self).0, raised object_closed))
        × (source_listinfo pq (source_close self).0 ≡ ((source_close self).0, raised object_closed))
        × (source_fieldinfo pq (source_close self).0 desc
            ≡ ((source_close self).0, raised object_closed))
        × (source_field pq (source_close self).0 desc
            ≡ ((source_close self).0, raised object_closed))
  unfolding source_close check_source_obj source_execute source_fetch source_move source_putdata
      source_getdata source_oidstatus source_listinfo source_fieldinfo source_field
  source_close-refused self sql b args d decode desc =
      (refl, refl, refl, refl, refl, refl, refl, refl, refl)
